-- ===== src/Storage/Confined.antt =====
-- What an upload at src/storage/storage.controller.ts may write, and where.
use nestjs_hexagonal_templat.Prelude.{
  ℕ, ◌≤◌, String, ◌≡◌, refl, sym, ap, ◌∙◌, ◌⊎◌, inl, inr, true, Option, some, ◌==◌, str_cases,
  Bool-cases,
}
use nestjs_hexagonal_templat.Common.Exec.{
  Result, ok, throw, Exec, Ensures, Ensures-bind, Ensures-mono,
}
use nestjs_hexagonal_templat.Storage.{
  UploadedFile, FileType, StoredFile, StorageServicePort, ProcessedImage, UploadResponse,
  processable_mime_types, allowed_mime_types, includes, max_file_size, process, kind_of, image_key,
  thumbnail_key_of, document_key, with_thumbnail, upload_both, store_image, store_document, store,
}
use nestjs_hexagonal_templat.Storage.Steps.{
  upload_both-Ensures, includes-pdf, IsWebp, thumbnail_of-IsWebp,
}
use nestjs_hexagonal_templat.Storage.S3.{
  Contents, IsPut, IsSame, S3Client, s3_storage, upload-IsPut,
}

module _ {Buffer W : Type 0} where
  -- What an upload of the storage does to what it holds.
  pub record StorageLaws (storage : StorageServicePort Buffer W) : Type 0 where
    pub held : W → Contents Buffer
    pub upload_law :
        (key : String) (buffer : Buffer) (mime : String) (w : W)
        → Ensures
            (storage.upload key buffer mime w)
            (λ r w'. (r.key ≡ key) × IsPut key buffer mime (held w) (held w'))
            (λ w'. IsSame (held w) (held w') ⊎ IsPut key buffer mime (held w) (held w'))

abbrev pub s3_laws :
    {Buffer W : Type 0} (client : S3Client Buffer W) (bucket : String) (expiry : Option ℕ)
    → StorageLaws (s3_storage client bucket expiry)
unfolding s3_storage
s3_laws client bucket expiry = record {
  held = λ w. client.contents w bucket;
  upload_law = upload-IsPut client bucket expiry;
}

module _ {Buffer W : Type 0} (storage : StorageServicePort Buffer W) (laws : StorageLaws storage)
    (to_webp : Buffer → ℕ → ℕ → Result Buffer) (detect : Buffer → Option FileType)
    (id : String) where
  abbrev held : W → Contents Buffer
  held w = laws.held w

  -- A file that passed the checks, with the type that its bytes have.
  abbrev pub IsChecked : UploadedFile Buffer → FileType → Type 0
  IsChecked f t =
      (f.size ≤ max_file_size)
      × (includes allowed_mime_types f.mimetype ≡ true)
      × (detect f.buffer ≡ some t)
      × (includes allowed_mime_types t.mime ≡ true)
      × ((kind_of f.mimetype == kind_of t.mime) ≡ true)

  -- What may stand under a key: the image as sharp wrote it again, its thumbnail, or the bytes of a PDF.
  abbrev pub MayHold : String → UploadedFile Buffer → FileType → String → Buffer × String → Type 0
  MayHold tenant f t key o =
      ((image : ProcessedImage Buffer) × (process to_webp f.buffer ≡ ok image)
        × (((key ≡ image_key tenant id) × (o ≡ (image.optimized_buffer, "image/webp")))
            ⊎ ((key ≡ thumbnail_key_of tenant id) × (o ≡ (image.thumbnail_buffer, "image/webp")))))
      ⊎ ((t.mime ≡ "application/pdf")
          × (key ≡ document_key tenant id t.ext)
          × (o ≡ (f.buffer, t.mime)))

  module _ (tenant : String) (f : UploadedFile Buffer) (t : FileType) where
    abbrev pub Holds : W → String → Type 0
    Holds w key = (o : Buffer × String) × (held w key ≡ some o) × MayHold tenant f t key o

    -- Each key holds what it held, or what it may hold.
    abbrev pub Changes : W → W → Type 0
    Changes w w' = (key : String) → (held w' key ≡ held w key) ⊎ Holds w' key

    Holds-IsPut :
        (key : String) (o : Buffer × String) (w w' : W) (other : String)
        → IsPut key o.0 o.1 (held w) (held w')
        → MayHold tenant f t key o
        → Holds w other
        → Holds w' other
    Holds-IsPut key o w w' other put may (p, there, fits) = elim (str_cases other key) [
      | inl same ↦ (o, ap (held w') same.0 ∙ put.0, rw same.0 may)
      | inr differs ↦ (p, put.1 other differs.0 ∙ there, fits)
    ]

    Changes-there :
        (w w1 w2 : W) (other : String)
        → (held w1 other ≡ held w other) ⊎ Holds w1 other
        → held w2 other ≡ held w1 other
        → (held w2 other ≡ held w other) ⊎ Holds w2 other
    Changes-there w w1 w2 other (inl e) d = inl (d ∙ e)
    Changes-there w w1 w2 other (inr (p, there, fits)) d = inr (p, d ∙ there, fits)

    Changes-IsPut :
        (key : String) (o : Buffer × String) (w w1 w2 : W)
        → Changes w w1
        → IsPut key o.0 o.1 (held w1) (held w2)
        → MayHold tenant f t key o
        → Changes w w2
    Changes-IsPut key o w w1 w2 before put may other = elim (str_cases other key) [
      | inl same ↦ inr (o, ap (held w2) same.0 ∙ put.0, rw same.0 may)
      | inr differs ↦ Changes-there w w1 w2 other (before other) (put.1 other differs.0)
    ]

    -- One upload of what may stand under its key.
    upload-Changes :
        (key : String) (o : Buffer × String) (w w1 : W)
        → Changes w w1
        → MayHold tenant f t key o
        → Ensures
            (storage.upload key o.0 o.1 w1)
            (λ r w2.
              (r.key ≡ key)
              × Changes w w2
              × Holds w2 r.key
              × ((other : String) → Holds w1 other → Holds w2 other))
            (λ w2. Changes w w2)
    upload-Changes key o w w1 before may =
        Ensures-mono (storage.upload key o.0 o.1 w1) _ _ _ _ (laws.upload_law key o.0 o.1 w1)
          (λ r w2 h. (
            h.0,
            Changes-IsPut key o w w1 w2 before h.1 may,
            rw h.0 (o, h.1.0, may),
            λ other. Holds-IsPut key o w1 w2 other h.1 may,
          ))
          (λ w2 h. elim h [
            | inl same ↦ λ other. Changes-there w w1 w2 other (before other) (same other)
            | inr put ↦ Changes-IsPut key o w w1 w2 before put may
          ])

    -- What the answer names is there.
    abbrev pub Stores : W → UploadResponse → W → Type 0
    Stores w r w' =
        Changes w w' × Holds w' r.key × ((key : String) → r.thumbnail_key ≡ some key → Holds w' key)

    the_key : (a key : String) → some a ≡ some key → a ≡ key
    the_key a key e = cc

    store_image-Stores :
        (image : ProcessedImage Buffer) (w : W)
        → process to_webp f.buffer ≡ ok image
        → Ensures
            (upload_both
              (storage.upload (image_key tenant id) image.optimized_buffer "image/webp")
              (storage.upload (thumbnail_key_of tenant id) image.thumbnail_buffer "image/webp")
              w)
            (Stores w)
            (Changes w)
    store_image-Stores image w done =
        upload_both-Ensures (Stores w) (Changes w)
          (storage.upload (image_key tenant id) image.optimized_buffer "image/webp") second w
          (Ensures-mono (storage.upload (image_key tenant id) image.optimized_buffer "image/webp" w)
            _ _ _ _
            (upload-Changes (image_key tenant id) (image.optimized_buffer, "image/webp") w w
              (λ key. inl refl) (inl (image, done, inl (refl, refl))))
            (λ a w1 h.
              Ensures-mono (second w1) _ _ (λ b. Stores w (with_thumbnail a b)) (Changes w)
                (next w1 h.1) (λ b w2 k. (k.1, k.3 a.key h.2, λ key e. there w2 b.key key k.2 e))
                (λ w2 k. k))
            (λ w1 h.
              Ensures-mono (second w1) _ _ (λ _. Changes w) (Changes w) (next w1 h) (λ b w2 k. k.1)
                (λ w2 k. k)))
      where
        second : Exec W StoredFile
        second = storage.upload (thumbnail_key_of tenant id) image.thumbnail_buffer "image/webp"

        there : (w2 : W) (a key : String) → Holds w2 a → some a ≡ some key → Holds w2 key
        there w2 a key h e = rw (sym (the_key a key e)) h

        next :
            (w1 : W)
            → Changes w w1
            → Ensures
                (second w1)
                (λ r w2.
                  (r.key ≡ thumbnail_key_of tenant id)
                  × Changes w w2
                  × Holds w2 r.key
                  × ((other : String) → Holds w1 other → Holds w2 other))
                (λ w2. Changes w w2)
        next w1 before =
            upload-Changes (thumbnail_key_of tenant id) (image.thumbnail_buffer, "image/webp") w w1
              before (inl (image, done, inr (refl, refl)))

    store_document-Stores :
        (w : W)
        → t.mime ≡ "application/pdf"
        → Ensures
            (store_document storage to_webp detect tenant id f.buffer t w)
            (Stores w)
            (Changes w)
    store_document-Stores w pdf =
        Ensures-bind (storage.upload (document_key tenant id t.ext) f.buffer t.mime w) _ _ _
          (Stores w) (Changes w)
          (upload-Changes (document_key tenant id t.ext) (f.buffer, t.mime) w w (λ key. inl refl)
            (inr (pdf, refl, refl)))
          (λ r w1 h. (h.1, h.2, λ key e. cc)) (λ w1 h. h)

    store_image-either :
        (r : Result (ProcessedImage Buffer)) (w : W)
        → process to_webp f.buffer ≡ r
        → IsWebp to_webp r
        → Ensures (store_image storage to_webp detect tenant id r w) (Stores w) (Changes w)
    store_image-either (throw e) w done webp = λ key. inl refl
    store_image-either (ok image) w done webp =
        rw (webp.0, webp.1) (store_image-Stores image w done)

    pub store-Stores :
        (w : W)
        → includes allowed_mime_types t.mime ≡ true
        → Ensures (store storage to_webp detect tenant id f t w) (Stores w) (Changes w)
    unfolding process
    store-Stores w allowed = elim (Bool-cases (includes processable_mime_types t.mime)) [
      | inl image ↦ rw image (
          store_image-either (process to_webp f.buffer) w refl
            (thumbnail_of-IsWebp to_webp (to_webp f.buffer 1200 80)))
      | inr document ↦ rw document (store_document-Stores w (includes-pdf t.mime allowed document))
    ]
