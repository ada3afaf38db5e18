-- ===== src/Storage.antt =====
-- src/storage: an upload. `Buffer` is the type of the bytes; what file-type makes of them, sharp and S3
-- are arguments, and so is `randomUUID`.
pub mod S3
pub mod Steps
pub mod Confined
pub mod Accepted
mod Tests
use Prim.Native.String.{◌++◌}
use mathlib.Core.List
use nestjs_hexagonal_templat.Prelude.{
  ℕ, ◌*◌, String, Bool, not, ◌||◌, Option, none, some, ◌==◌, ltb, any, if◌then◌else◌,
}
use nestjs_hexagonal_templat.Common.Exec.{Result, ok, throw, Exec, pure, raise, ◌>>=◌, ◌>>◌}
use nestjs_hexagonal_templat.Common.Errors.{
  Exception, domain_error, bad_request, storage_upload_failed, tenant_context_missing,
}
use nestjs_hexagonal_templat.Common.Text.{split}

-- What the upload reads of `Express.Multer.File`.
pub record UploadedFile (Buffer : Type 0) : Type 0 where
  pub mimetype : String
  pub size : ℕ
  pub buffer : Buffer

-- fileTypeFromBuffer
pub record FileType : Type 0 where
  pub mime : String
  pub ext : String

pub record StoredFile : Type 0 where
  pub key : String
  pub url : String

-- storage.interface.ts
pub record StorageServicePort (Buffer W : Type 0) : Type 0 where
  pub upload : String → Buffer → String → Exec W StoredFile
  pub get_signed_url : String → Option ℕ → Exec W String
  pub delete : String → Exec W (Unit {0})

abbrev pub processable_mime_types : List.List String
processable_mime_types =
    List.◌∷◌ "image/jpeg" (List.◌∷◌ "image/png" (List.◌∷◌ "image/webp" List.[]))

abbrev pub allowed_mime_types : List.List String
allowed_mime_types =
    List.◌∷◌ "image/jpeg"
      (List.◌∷◌ "image/png" (List.◌∷◌ "image/webp" (List.◌∷◌ "application/pdf" List.[])))

abbrev pub includes : List.List String → String → Bool
includes types mime = any (λ t. t == mime) types

abbrev pub max_file_size : ℕ
max_file_size = 10 * 1024 * 1024

pub record ProcessedImage (Buffer : Type 0) : Type 0 where
  pub optimized_buffer : Buffer
  pub optimized_mime_type : String
  pub thumbnail_buffer : Buffer
  pub thumbnail_mime_type : String

module _ {Buffer : Type 0} (to_webp : Buffer → ℕ → ℕ → Result Buffer) where
  abbrev pub processed : Buffer → Result Buffer → Result (ProcessedImage Buffer)
  processed optimized (throw e) = throw e
  processed optimized (ok thumbnail) = ok (record {
    optimized_buffer = optimized;
    optimized_mime_type = "image/webp";
    thumbnail_buffer = thumbnail;
    thumbnail_mime_type = "image/webp";
  })

  abbrev pub thumbnail_of : Result Buffer → Result (ProcessedImage Buffer)
  thumbnail_of (throw e) = throw e
  thumbnail_of (ok optimized) = processed optimized (to_webp optimized 300 70)

  -- ImageProcessingService.process; `to_webp` is `resizeToWebp`.
  unfoldable pub process : Buffer → Result (ProcessedImage Buffer)
  process buffer = thumbnail_of (to_webp buffer 1200 80)

-- this.badRequest(message)
abbrev pub upload_failed : String → Exception
upload_failed message = domain_error storage_upload_failed message bad_request

pub record UploadResponse : Type 0 where
  pub key : String
  pub url : String
  pub thumbnail_key : Option String
  pub thumbnail_url : Option String

abbrev pub with_thumbnail : StoredFile → StoredFile → UploadResponse
with_thumbnail optimized thumbnail = record {
  key = optimized.key;
  url = optimized.url;
  thumbnail_key = some thumbnail.key;
  thumbnail_url = some thumbnail.url;
}

abbrev pub alone : StoredFile → UploadResponse
alone s = record { key = s.key; url = s.url; thumbnail_key = none; thumbnail_url = none }

-- mime.split('/')[0]
abbrev pub first_part : List.List String → String
first_part List.[] = ""
first_part (List.◌∷◌ part parts) = part

abbrev pub kind_of : String → String
unfolding split
kind_of mime = first_part (split b'/' mime)

-- `uploads/${tenantId}`
abbrev pub prefix_of : String → String
prefix_of tenant = "uploads/" ++ tenant

abbrev pub image_key : String → String → String
image_key tenant id = prefix_of tenant ++ ("/" ++ (id ++ ".webp"))

abbrev pub thumbnail_key_of : String → String → String
thumbnail_key_of tenant id = prefix_of tenant ++ ("/" ++ (id ++ "-thumb.webp"))

abbrev pub document_key : String → String → String → String
document_key tenant id ext = prefix_of tenant ++ ("/" ++ (id ++ ("." ++ ext)))

abbrev pub missing_tenant : Exception
missing_tenant =
    domain_error tenant_context_missing "Contexto de tenant ausente na requisição" bad_request

module _ {W : Type 0} where
  abbrev pub check : Bool → Exception → Exec W (Unit {0})
  check b e = if b then raise e else pure tt

  abbrev pub required : {A : Type 0} → Exception → Option A → Exec W A
  required e none = raise e
  required e (some a) = pure a

  -- Both of `Promise.all`: the second upload goes on where the first fails.
  abbrev pub settled : Result StoredFile → Result StoredFile × W → Result UploadResponse × W
  settled (ok a) (ok b, w) = (ok (with_thumbnail a b), w)
  settled (ok a) (throw e, w) = (throw e, w)
  settled (throw e) (r, w) = (throw e, w)

  abbrev pub upload_both : Exec W StoredFile → Exec W StoredFile → Exec W UploadResponse
  upload_both first second w = let (r, w1) = first w in settled r (second w1)

module _ {Buffer W : Type 0} (storage : StorageServicePort Buffer W)
    (to_webp : Buffer → ℕ → ℕ → Result Buffer) (detect : Buffer → Option FileType) where
  abbrev pub store_image : String → String → Result (ProcessedImage Buffer) → Exec W UploadResponse
  store_image tenant id (throw e) =
      raise (upload_failed "Falha ao processar a imagem. Verifique se o arquivo é válido.")
  store_image tenant id (ok image) =
      upload_both
        (storage.upload (image_key tenant id) image.optimized_buffer image.optimized_mime_type)
        (storage.upload (thumbnail_key_of tenant id) image.thumbnail_buffer
          image.thumbnail_mime_type)

  abbrev pub store_document : String → String → Buffer → FileType → Exec W UploadResponse
  store_document tenant id buffer detected = do
    stored ← storage.upload (document_key tenant id detected.ext) buffer detected.mime
    pure (alone stored)

  -- What follows the checks.
  abbrev pub store : String → String → UploadedFile Buffer → FileType → Exec W UploadResponse
  unfolding process
  store tenant id file detected =
      if includes processable_mime_types detected.mime
      then store_image tenant id (process to_webp file.buffer)
      else store_document tenant id file.buffer detected

  abbrev pub allowed_type : Option FileType → Option FileType
  allowed_type none = none
  allowed_type (some t) = if includes allowed_mime_types t.mime then some t else none

  -- `id` is `randomUUID()`.
  unfoldable pub upload :
      String → Option (UploadedFile Buffer) → Option String → Exec W UploadResponse
  unfolding process
  upload id file tenant_id = do
    f ← required (upload_failed "Nenhum arquivo enviado") file
    tenant ← required missing_tenant tenant_id
    check (tenant == "") missing_tenant
    check (ltb max_file_size f.size) (upload_failed "Arquivo excede o limite de 10MB")
    check (not (includes allowed_mime_types f.mimetype))
        (upload_failed ("Tipo de arquivo não permitido: " ++ f.mimetype))
    t ←
        required (upload_failed "Conteúdo do arquivo não corresponde a um tipo permitido")
          (allowed_type (detect f.buffer))
    check (not (kind_of f.mimetype == kind_of t.mime)) (
        upload_failed (
          "Tipo declarado ("
          ++ (f.mimetype ++ (") não corresponde ao conteúdo detectado (" ++ (t.mime ++ ")")))))
    store tenant id f t
