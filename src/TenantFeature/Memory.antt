-- ===== src/TenantFeature/Memory.antt =====
-- A table of features in memory: an instance of what `TenantFeature.Repository` says of TypeORM.
use nestjs_hexagonal_templat.Prelude.{
  String, ◌≡◌, refl, sym, ap, ◌∙◌, inl, inr, Bool, false, ◌&&◌, some, List, [], ◌∷◌, ◌==◌, eq_iff,
  arith, All, Bool-cases, keep, if◌then◌else◌,
}
use nestjs_hexagonal_templat.Common.Exec.{ok}
use nestjs_hexagonal_templat.Database.Selection.{IsSelection, All-In}
use nestjs_hexagonal_templat.TenantFeature.{TenantFeature}
use nestjs_hexagonal_templat.TenantFeature.Port.{
  of_tenant, has_key, stored, setting_of, written_or, IsUnique,
}
use nestjs_hexagonal_templat.TenantFeature.Repository.{FeatureTable}

-- Two rows of one tenant and one key.
abbrev pub is_same : TenantFeature → TenantFeature → Bool
is_same f g = f.tenant_id == g.tenant_id && f.feature_key == g.feature_key

abbrev pub IsFresh : TenantFeature → List TenantFeature → Type 0
IsFresh f xs = All (λ g. is_same f g ≡ false) xs

abbrev pub IsKeyed : List TenantFeature → Type 0
IsKeyed [] = Unit
IsKeyed (x ∷ xs) = IsFresh x xs × IsKeyed xs

abbrev pub put : TenantFeature → List TenantFeature → List TenantFeature
put f [] = f ∷ []
put f (x ∷ xs) =
    if is_same f x
    then record x { enabled = f.enabled; numeric_value = f.numeric_value } ∷ xs
    else x ∷ put f xs

abbrev pub put_all : List TenantFeature → List TenantFeature → List TenantFeature
put_all [] xs = xs
put_all (f ∷ fs) xs = put f (put_all fs xs)

is_same_comm : (f g : TenantFeature) → is_same f g ≡ is_same g f
is_same_comm f g = ground (
  arith,
  eq_iff f.tenant_id g.tenant_id,
  eq_iff g.tenant_id f.tenant_id,
  eq_iff f.feature_key g.feature_key,
  eq_iff g.feature_key f.feature_key,
)

put-IsFresh :
    (f g : TenantFeature) (xs : List TenantFeature)
    → is_same g f ≡ false
    → IsFresh g xs
    → IsFresh g (put f xs)
put-IsFresh f g [] h d = (h, tt)
put-IsFresh f g (x ∷ xs) h (n, d) = ground (arith, put-IsFresh f g xs h d)

put-IsKeyed : (f : TenantFeature) (xs : List TenantFeature) → IsKeyed xs → IsKeyed (put f xs)
put-IsKeyed f [] d = (tt, tt)
put-IsKeyed f (x ∷ xs) (n, d) = elim (Bool-cases (is_same f x)) [
  | inl hit ↦ rw hit (n, d)
  | inr miss ↦ rw miss (put-IsFresh f x xs (is_same_comm x f ∙ miss) n, put-IsKeyed f xs d)
]

pub put_all-IsKeyed : (fs xs : List TenantFeature) → IsKeyed xs → IsKeyed (put_all fs xs)
put_all-IsKeyed [] xs d = d
put_all-IsKeyed (f ∷ fs) xs d = put-IsKeyed f (put_all fs xs) (put_all-IsKeyed fs xs d)

pub IsKeyed-IsUnique : (xs : List TenantFeature) → IsKeyed xs → IsUnique xs
IsKeyed-IsUnique [] d r s i j e k = absurd i
IsKeyed-IsUnique (x ∷ xs) (n, d) r s (inl i) (inl j) e k = i ∙ sym j
IsKeyed-IsUnique (x ∷ xs) (n, d) r s (inl i) (inr j) e k =
    let apart_rows : is_same x s ≡ false = All-In (λ g. is_same x g ≡ false) xs s n j in
    let one : is_same r s ≡ false = rw i apart_rows in
    absurd (ground (arith, eq_iff r.tenant_id s.tenant_id, eq_iff r.feature_key s.feature_key))
IsKeyed-IsUnique (x ∷ xs) (n, d) r s (inr i) (inl j) e k =
    let apart_rows : is_same x r ≡ false = All-In (λ g. is_same x g ≡ false) xs r n i in
    let one : is_same s r ≡ false = rw j apart_rows in
    absurd (
      ground
        (arith, sym e, sym k, eq_iff s.tenant_id r.tenant_id, eq_iff s.feature_key r.feature_key))
IsKeyed-IsUnique (x ∷ xs) (n, d) r s (inr i) (inr j) e k = IsKeyed-IsUnique xs d r s i j e k

stored-put :
    (t k : String) (f : TenantFeature) (xs : List TenantFeature)
    → setting_of (stored t k (put f xs))
      ≡ (if of_tenant t f && has_key k f then setting_of (some f) else setting_of (stored t k xs))
stored-put t k f [] = ground arith
stored-put t k f (x ∷ xs) = ground (
  arith,
  stored-put t k f xs,
  eq_iff f.tenant_id x.tenant_id,
  eq_iff f.feature_key x.feature_key,
  eq_iff f.tenant_id t,
  eq_iff x.tenant_id t,
  eq_iff f.feature_key k,
  eq_iff x.feature_key k,
)

pub stored-put_all :
    (t k : String) (fs xs : List TenantFeature)
    → setting_of (stored t k (put_all fs xs))
      ≡ written_or (stored t k fs) (setting_of (stored t k xs))
stored-put_all t k [] xs = refl
stored-put_all t k (f ∷ fs) xs =
    stored-put t k f (put_all fs xs) ∙ ground (arith, stored-put_all t k fs xs)

pub keep-IsSelection :
    (p : TenantFeature → Bool) (xs : List TenantFeature) → IsSelection p xs (keep p xs)
keep-IsSelection p [] = ((λ r i. absurd i), (λ r i h. absurd i))
keep-IsSelection p (x ∷ xs) = elim (Bool-cases (p x)) [
  | inl hit ↦
      let rest = keep-IsSelection p xs in
      rw hit (
        (λ r i. elim i [
          | inl e ↦ (inl e, ap p e ∙ hit)
          | inr j ↦ (inr (rest.0 r j).0, (rest.0 r j).1)
        ]),
        (λ r i h. elim i [ inl e ↦ inl e | inr j ↦ inr (rest.1 r j h) ]),
      )
  | inr miss ↦
      let rest = keep-IsSelection p xs in
      rw miss (
        (λ r j. (inr (rest.0 r j).0, (rest.0 r j).1)),
        (λ r i h. elim i [ inl e ↦ absurd (cc (ap p e, miss, h)) | inr j ↦ rest.1 r j h ]),
      )
]

abbrev pub Store : Type 0
Store = (xs : List TenantFeature) × IsKeyed xs

abbrev pub memory_table : FeatureTable Store
memory_table = record {
  rows = λ w. w.0;
  find_rows = λ p w. (ok (keep p w.0), w);
  upsert = λ fs w. (ok tt, (put_all fs w.0, put_all-IsKeyed fs w.0 w.1));
  rows_unique = λ w. IsKeyed-IsUnique w.0 w.1;
  find_rows_law = λ p w. (refl, keep-IsSelection p w.0);
  upsert_law = λ fs w t k. stored-put_all t k fs w.0;
}
