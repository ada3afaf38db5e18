-- ===== src/Storage/Accepted.antt =====
-- The whole upload at src/storage/storage.controller.ts: which files pass, and what then is stored.
use nestjs_hexagonal_templat.Prelude.{
  ℕ, String, ◌≡◌, refl, sym, ◌⊎◌, inl, inr, Bool, true, false, not, Option, none, some, ◌==◌, arith,
  ltb, if◌then◌else◌,
}
use nestjs_hexagonal_templat.Common.Exec.{Result, Exec, Ensures, Ensures-mono, ◌>>=◌, ◌>>◌}
use nestjs_hexagonal_templat.Common.Errors.{Exception}
use nestjs_hexagonal_templat.Storage.{
  UploadedFile, FileType, StorageServicePort, UploadResponse, allowed_mime_types, includes,
  max_file_size, kind_of, check, required, store, allowed_type, upload,
}
use nestjs_hexagonal_templat.Storage.S3.{IsSame}
use nestjs_hexagonal_templat.Storage.Confined.{
  StorageLaws, IsChecked, Changes, Stores, store-Stores,
}

module _ {W B : Type 0} (P : B → W → Type 0) (Q : W → Type 0) (w : W) (nothing : Q w) where
  required-Ensures :
      {A : Type 0} (e : Exception) (o : Option A) (next : A → Exec W B)
      → ((a : A) → o ≡ some a → Ensures (next a w) P Q)
      → Ensures ((required e o >>= next) w) P Q
  required-Ensures e none next h = nothing
  required-Ensures e (some a) next h = h a refl

  check-Ensures :
      (b : Bool) (e : Exception) (next : Exec W B)
      → (b ≡ false → Ensures (next w) P Q)
      → Ensures ((check b e >> next) w) P Q
  check-Ensures true e next h = nothing
  check-Ensures false e next h = h refl

not-false : (b : Bool) → not b ≡ false → b ≡ true
not-false true e = refl
not-false false e = cc

module _ {Buffer W : Type 0} (storage : StorageServicePort Buffer W) (laws : StorageLaws storage)
    (to_webp : Buffer → ℕ → ℕ → Result Buffer) (detect : Buffer → Option FileType)
    (id : String) where
  the_type : (s t : FileType) → some s ≡ some t → s ≡ t
  the_type s t e = cc

  allowed_type_lem :
      (o : Option FileType) (t : FileType)
      → allowed_type storage to_webp detect o ≡ some t
      → (o ≡ some t) × (includes allowed_mime_types t.mime ≡ true)
  allowed_type_lem none t h = cc
  allowed_type_lem (some s) t h = go (includes allowed_mime_types s.mime) refl h
    where
      go :
          (b : Bool)
          → includes allowed_mime_types s.mime ≡ b
          → (if b then some s else none) ≡ some t
          → (some s ≡ some t) × (includes allowed_mime_types t.mime ≡ true)
      go true e k = (k, rw (sym (the_type s t k)) e)
      go false e k = cc

  -- The request names a file that passed the checks, of a tenant, and `P` holds of them.
  abbrev pub Accepted :
      Option (UploadedFile Buffer)
      → Option String
      → (String → UploadedFile Buffer → FileType → Type 0)
      → Type 0
  Accepted file tenant_id P =
      (f : UploadedFile Buffer) × (tenant : String) × (t : FileType) × (file ≡ some f)
      × (tenant_id ≡ some tenant)
      × ((tenant == "") ≡ false)
      × IsChecked storage laws to_webp detect id f t
      × P tenant f t

  -- How an upload may end: an answer, and what the storage then holds, or an exception.
  abbrev pub IsConfined :
      Option (UploadedFile Buffer) → Option String → W → Result UploadResponse × W → Type 0
  IsConfined file tenant_id w m =
      Ensures m
        (λ r w'.
          Accepted file tenant_id
            (λ tenant f t. Stores storage laws to_webp detect id tenant f t w r w'))
        (λ w'.
          IsSame (laws.held w) (laws.held w')
          ⊎ Accepted file tenant_id
              (λ tenant f t. Changes storage laws to_webp detect id tenant f t w w'))

  -- Of a storage whose upload puts the file under its key and touches no other key, or throws having
  -- put it or nothing. An upload that answers was of a file in the request, for a tenant's id that is not empty, of
  -- at most 10 MB, declared as an allowed type, with bytes of an allowed type of the same kind; each key
  -- then holds what it held, or, under the tenant's key for the new id, the resized image, its thumbnail, or
  -- the file's bytes where they are a PDF's; and the keys in the answer hold such contents. One that
  -- throws has left every key alone, or the same was so of the request and of each key.
  pub upload-IsConfined :
      (file : Option (UploadedFile Buffer)) (tenant_id : Option String) (w : W)
      → IsConfined file tenant_id w (upload storage to_webp detect id file tenant_id w)
  unfolding upload
  upload-IsConfined file tenant_id w = required-Ensures P Q w same _ file _ (λ f sent.
      required-Ensures P Q w same _ tenant_id _ (λ tenant named.
        check-Ensures P Q w same (tenant == "") _ _ (λ filled.
          check-Ensures P Q w same (ltb max_file_size f.size) _ _ (λ small.
            check-Ensures P Q w same (not (includes allowed_mime_types f.mimetype)) _ _ (λ declared.
              required-Ensures P Q w same _ (allowed_type storage to_webp detect (detect f.buffer))
                _
                (λ t found.
                  check-Ensures P Q w same (not (kind_of f.mimetype == kind_of t.mime)) _ _
                    (λ alike.
                      accepted f tenant t sent named filled
                        (checked f t small declared found alike))))))))
    where
      P : UploadResponse → W → Type 0
      P r w' =
          Accepted file tenant_id
            (λ tenant f t. Stores storage laws to_webp detect id tenant f t w r w')

      Q : W → Type 0
      Q w' =
          IsSame (laws.held w) (laws.held w')
          ⊎ Accepted file tenant_id
              (λ tenant f t. Changes storage laws to_webp detect id tenant f t w w')

      same : Q w
      same = inl (λ key. refl)

      checked :
          (f : UploadedFile Buffer) (t : FileType)
          → ltb max_file_size f.size ≡ false
          → not (includes allowed_mime_types f.mimetype) ≡ false
          → allowed_type storage to_webp detect (detect f.buffer) ≡ some t
          → not (kind_of f.mimetype == kind_of t.mime) ≡ false
          → IsChecked storage laws to_webp detect id f t
      checked f t small declared found alike = (
        ground (arith, small),
        not-false _ declared,
        (allowed_type_lem (detect f.buffer) t found).0,
        (allowed_type_lem (detect f.buffer) t found).1,
        not-false _ alike,
      )

      accepted :
          (f : UploadedFile Buffer) (tenant : String) (t : FileType)
          → file ≡ some f
          → tenant_id ≡ some tenant
          → (tenant == "") ≡ false
          → IsChecked storage laws to_webp detect id f t
          → Ensures (store storage to_webp detect tenant id f t w) P Q
      accepted f tenant t sent named filled facts =
          Ensures-mono (store storage to_webp detect tenant id f t w) _ _ P Q
            (store-Stores storage laws to_webp detect id tenant f t w facts.3)
            (λ r w' h. (f, tenant, t, sent, named, filled, facts, h))
            (λ w' h. inr (f, tenant, t, sent, named, filled, facts, h))
