-- ===== src/Storage/Steps.antt =====
-- The steps of an upload at src/storage/storage.controller.ts, each by itself: both uploads of an image, its
-- types, and the one allowed type that is no image.
use nestjs_hexagonal_templat.Prelude.{ℕ, String, ◌≡◌, refl, true, false, eq_iff, arith}
use nestjs_hexagonal_templat.Common.Exec.{Result, ok, throw, Exec, Ensures, Ensures-state}
use nestjs_hexagonal_templat.Storage.{
  StoredFile, ProcessedImage, processed, thumbnail_of, UploadResponse, processable_mime_types,
  allowed_mime_types, includes, with_thumbnail, settled, upload_both,
}

module _ {W : Type 0} where
  -- Both uploads, whichever way the first ended.
  pub upload_both-Ensures :
      (P : UploadResponse → W → Type 0) (Q : W → Type 0) (first second : Exec W StoredFile) (w : W)
      → Ensures
          (first w)
          (λ a w1. Ensures (second w1) (λ b. P (with_thumbnail a b)) Q)
          (λ w1. Ensures (second w1) (λ _. Q) Q)
      → Ensures (upload_both first second w) P Q
  upload_both-Ensures P Q first second w = after (first w)
    where
      ended :
          (a : StoredFile) (r : Result StoredFile × W)
          → Ensures r (λ b. P (with_thumbnail a b)) Q
          → Ensures (settled (ok a) r) P Q
      ended a (ok b, w2) h = h
      ended a (throw e, w2) h = h

      after :
          (r : Result StoredFile × W)
          → Ensures r
              (λ a w1. Ensures (second w1) (λ b. P (with_thumbnail a b)) Q)
              (λ w1. Ensures (second w1) (λ _. Q) Q)
          → Ensures (settled r.0 (second r.1)) P Q
      after (ok a, w1) h = ended a (second w1) h
      after (throw e, w1) h = Ensures-state (second w1) Q h

-- An allowed type that sharp does not process.
pub includes-pdf :
    (mime : String)
    → includes allowed_mime_types mime ≡ true
    → includes processable_mime_types mime ≡ false
    → mime ≡ "application/pdf"
includes-pdf mime may other = ground (
  arith,
  may,
  other,
  eq_iff "image/jpeg" mime,
  eq_iff "image/png" mime,
  eq_iff "image/webp" mime,
  eq_iff "application/pdf" mime,
)

module _ {Buffer : Type 0} (to_webp : Buffer → ℕ → ℕ → Result Buffer) where
  abbrev pub IsWebp : Result (ProcessedImage Buffer) → Type 0
  IsWebp (throw e) = Unit {0}
  IsWebp (ok image) =
      (image.optimized_mime_type ≡ "image/webp") × (image.thumbnail_mime_type ≡ "image/webp")

  pub thumbnail_of-IsWebp : (r : Result Buffer) → IsWebp (thumbnail_of to_webp r)
  thumbnail_of-IsWebp (throw e) = tt
  thumbnail_of-IsWebp (ok optimized) = of (to_webp optimized 300 70)
    where
      of : (r : Result Buffer) → IsWebp (processed to_webp optimized r)
      of (throw e) = tt
      of (ok thumbnail) = (refl, refl)
