-- ===== src/Storage/S3.antt =====
-- src/storage/s3-storage.adapter.ts over the commands of S3's client, which are an argument, as is what
-- the environment says of the bucket and of the time that a signed link is good for.
use nestjs_hexagonal_templat.Prelude.{ℕ, String, ◌≡◌, ◌≢◌, refl, ◌∙◌, ◌⊎◌, inr, Option, none, some}
use nestjs_hexagonal_templat.Common.Exec.{Exec, pure, ◌>>=◌, ◌>>◌, Ensures, Ensures-bind}
use nestjs_hexagonal_templat.Storage.{StoredFile, StorageServicePort}

-- What a bucket holds: for each key the bytes and their type.
abbrev pub Contents : Type 0 → Type 0
Contents Buffer = String → Option (Buffer × String)

module _ {Buffer : Type 0} where
  -- The bucket after a put.
  abbrev pub IsPut : String → Buffer → String → Contents Buffer → Contents Buffer → Type 0
  IsPut key buffer mime before after =
      (after key ≡ some (buffer, mime))
      × ((other : String) → other ≢ key → after other ≡ before other)

  abbrev pub IsSame : Contents Buffer → Contents Buffer → Type 0
  IsSame before after = (key : String) → after key ≡ before key

-- PutObjectCommand, getSignedUrl over GetObjectCommand, and DeleteObjectCommand. A put that fails may
-- have been done.
pub record S3Client (Buffer W : Type 0) : Type 0 where
  pub contents : W → String → Contents Buffer
  pub put_object : String → String → Buffer → String → Exec W (Unit {0})
  pub sign : String → String → ℕ → Exec W String
  pub delete_object : String → String → Exec W (Unit {0})
  pub put_object_law :
      (bucket key : String) (buffer : Buffer) (mime : String) (w : W)
      → Ensures
          (put_object bucket key buffer mime w)
          (λ _ w'. IsPut key buffer mime (contents w bucket) (contents w' bucket))
          (λ w'.
            IsSame (contents w bucket) (contents w' bucket)
            ⊎ IsPut key buffer mime (contents w bucket) (contents w' bucket))
  pub sign_law :
      (bucket key : String) (expires : ℕ) (w : W) (other : String)
      → Ensures
          (sign bucket key expires w)
          (λ _ w'. IsSame (contents w other) (contents w' other))
          (λ w'. IsSame (contents w other) (contents w' other))

-- configService.get(...) ?? default
abbrev pub or_default {ℓ} : {A : Type ℓ} → Option A → A → A
or_default none value = value
or_default (some a) value = a

module _ {Buffer W : Type 0} (client : S3Client Buffer W) (bucket : String)
    (signed_url_expiry_seconds : Option ℕ) where
  unfoldable pub get_signed_url : String → Option ℕ → Exec W String
  get_signed_url key expires =
      client.sign bucket key (or_default expires (or_default signed_url_expiry_seconds 900))

  unfoldable pub upload : String → Buffer → String → Exec W StoredFile
  unfolding get_signed_url
  upload key buffer mime = do
    client.put_object bucket key buffer mime
    url ← get_signed_url key none
    pure (record { key = key; url = url })

  unfoldable pub delete : String → Exec W (Unit {0})
  delete key = client.delete_object bucket key

  unfoldable pub s3_storage : StorageServicePort Buffer W
  unfolding upload get_signed_url delete
  s3_storage = record { upload = upload; get_signed_url = get_signed_url; delete = delete }

  abbrev pub held : W → Contents Buffer
  held w = client.contents w bucket

  IsPut-IsSame :
      (key : String) (buffer : Buffer) (mime : String) (a b c : Contents Buffer)
      → IsPut key buffer mime a b
      → IsSame b c
      → IsPut key buffer mime a c
  IsPut-IsSame key buffer mime a b c h k = (k key ∙ h.0, λ other n. k other ∙ h.1 other n)

  -- An upload that returns has put the file under its key, and the answer names the key; one that
  -- throws has put it or nothing.
  pub upload-IsPut :
      (key : String) (buffer : Buffer) (mime : String) (w : W)
      → Ensures
          (upload key buffer mime w)
          (λ r w'. (r.key ≡ key) × IsPut key buffer mime (held w) (held w'))
          (λ w'. IsSame (held w) (held w') ⊎ IsPut key buffer mime (held w) (held w'))
  unfolding upload get_signed_url
  upload-IsPut key buffer mime w =
      Ensures-bind (client.put_object bucket key buffer mime w) _ _ _ _ _
        (client.put_object_law bucket key buffer mime w)
        (λ _ w1 h.
          Ensures-bind (get_signed_url key none w1) (λ url. pure (record { key = key; url = url }))
            _ _ _ _ (client.sign_law bucket key _ w1 bucket)
            (λ url w2 k. (refl, IsPut-IsSame key buffer mime (held w) (held w1) (held w2) h k))
            (λ w2 k. inr (IsPut-IsSame key buffer mime (held w) (held w1) (held w2) h k)))
        (λ w1 h. h)
