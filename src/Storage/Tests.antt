-- ===== src/Storage/Tests.antt =====
-- Uploads of two small files to a bucket in memory. The bytes are a text, and a resized image is the
-- text with a mark behind it.
use Prim.Native.String.{◌++◌}
use nestjs_hexagonal_templat.Prelude.{
  ℕ, String, ◌≡◌, refl, Option, none, some, ◌==◌, [], ◌∷◌, map, eq_refl, eq_iff, arith,
  if◌then◌else◌,
}
use nestjs_hexagonal_templat.Common.Exec.{Result, ok, throw}
use nestjs_hexagonal_templat.Storage.{
  UploadedFile, FileType, UploadResponse, StorageServicePort, upload_failed, kind_of, upload,
}
use nestjs_hexagonal_templat.Storage.S3.{Contents, IsPut, S3Client, s3_storage}
use nestjs_hexagonal_templat.Storage.Confined.{s3_laws}
use nestjs_hexagonal_templat.Storage.Accepted.{IsConfined, upload-IsConfined}

abbrev World : Type 0
World = Contents String

abbrev put : String → String → String → World → World
put key buffer mime w other = if other == key then some (buffer, mime) else w other

put-IsPut : (key buffer mime : String) (w : World) → IsPut key buffer mime w (put key buffer mime w)
put-IsPut key buffer mime w =
    (ground (arith, eq_refl key), λ other differs. ground (arith, eq_iff other key, differs))

abbrev client : S3Client String World
client = record {
  contents = λ w bucket. w;
  put_object = λ bucket key buffer mime w. (ok tt, put key buffer mime w);
  sign = λ bucket key expires w. (ok ("https://s3/" ++ key), w);
  delete_object = λ bucket key w. (ok tt, λ other. if other == key then none else w other);
  put_object_law = λ bucket key buffer mime w. put-IsPut key buffer mime w;
  sign_law = λ bucket key expires w other k. refl;
}

abbrev storage : StorageServicePort String World
storage = s3_storage client "media" none

abbrev to_webp : String → ℕ → ℕ → Result String
to_webp bytes width quality = ok (bytes ++ "~")

-- fileTypeFromBuffer: the bytes of the one name a PNG, of the other a PDF.
abbrev detect : String → Option FileType
detect bytes =
    if bytes == "png"
    then some (record { mime = "image/png"; ext = "png" })
    else if bytes == "pdf"
    then some (record { mime = "application/pdf"; ext = "pdf" })
    else none

abbrev sent : String → String → UploadedFile String
sent mimetype buffer = record { mimetype = mimetype; size = 3; buffer = buffer }

abbrev empty : World
empty key = none

abbrev run : String → String → Result UploadResponse × World
unfolding upload s3_storage
run mimetype buffer =
    upload storage to_webp detect "u1" (some (sent mimetype buffer)) (some "t1") empty

upload-IsConfined_example :
    IsConfined storage
      (s3_laws client "media" none)
      to_webp
      detect
      "u1"
      (some (sent "image/png" "png"))
      (some "t1")
      empty
      (upload storage to_webp detect "u1" (some (sent "image/png" "png")) (some "t1") empty)
upload-IsConfined_example =
    upload-IsConfined storage (s3_laws client "media" none) to_webp detect "u1"
      (some (sent "image/png" "png")) (some "t1") empty

image_stored :
    map
      (run "image/png" "png").1
      ("uploads/t1/u1.webp" ∷ "uploads/t1/u1-thumb.webp" ∷ "uploads/t1/u1.png" ∷ [])
    ≡ some ("png~", "image/webp") ∷ some ("png~~", "image/webp") ∷ none ∷ []
unfolding run kind_of
image_stored = refl

disguised_refused :
    (run "image/png" "pdf").0
    ≡ throw (
        upload_failed
          "Tipo declarado (image/png) não corresponde ao conteúdo detectado (application/pdf)")
unfolding run kind_of
disguised_refused = refl
