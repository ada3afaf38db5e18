-- ===== src/AntiBot/TokenStore/Bounds.antt =====
-- The token store stays within its ceiling and holds a token once.
use nestjs_hexagonal_templat.Prelude.{
  ℕ, zero, suc, ◌+◌, ◌-◌, ◌≤◌, String, ◌≡◌, refl, List, [], ◌∷◌, arith, leb, length, length-drop,
  length-keep-le, drop, Bool-cases, inl, inr,
}
use nestjs_hexagonal_templat.Common.JsMap.{
  lookup, insert, IsDistinct, insert-IsDistinct, keep-IsDistinct, drop-IsDistinct,
}
use nestjs_hexagonal_templat.AntiBot.TokenStore.{
  max_entries, Store, survives, prune, drop_oldest, enforce_cap, is_marked, mark_used_below,
  mark_used,
}

drop_oldest-eq-drop :
    (k excess removed : ℕ) (m : List (String × ℕ))
    → excess ≡ k + removed
    → drop_oldest excess removed m ≡ drop k m
unfolding drop_oldest
drop_oldest-eq-drop zero excess removed [] h = refl
drop_oldest-eq-drop zero excess removed (e ∷ m) h = ground arith
drop_oldest-eq-drop (suc k) excess removed [] h = refl
drop_oldest-eq-drop (suc k) excess removed (e ∷ m) h =
    ground (arith, drop_oldest-eq-drop k excess (removed + 1) m)

pub enforce_cap-used :
    (ceiling : ℕ) (s : Store) → (enforce_cap ceiling s).used ≡ drop (length s.used - ceiling) s.used
unfolding enforce_cap
enforce_cap-used ceiling s = elim (Bool-cases (leb (length s.used) ceiling)) [
  | inl fits ↦ let none_over : length s.used - ceiling ≡ 0 = ground arith in rw (fits, none_over)
  | inr over ↦ rw over (
      drop_oldest-eq-drop (length s.used - ceiling) (length s.used - ceiling) 0 s.used
        (omega arith))
]

pub record IsValid (ceiling : ℕ) (s : Store) : Type 0 where
  pub distinct : IsDistinct s.used
  pub bounded : length s.used ≤ ceiling

pub prune-IsValid :
    (ceiling now : ℕ) (s : Store) → IsValid ceiling s → IsValid ceiling (prune now s)
unfolding prune
prune-IsValid ceiling now s v =
    ground (
      arith,
      keep-IsDistinct (survives now) s.used v.distinct,
      length-keep-le (survives now) s.used,
    )

pub mark_used_below-IsValid :
    (ceiling : ℕ) (jti : String) (ttl_ms now : ℕ) (s : Store)
    → IsValid ceiling s
    → IsValid ceiling (mark_used_below ceiling jti ttl_ms now s).1
unfolding mark_used_below
mark_used_below-IsValid ceiling jti ttl_ms now s v =
    let p : Store = prune now s in
    let pv = prune-IsValid ceiling now s v in
    let m = insert jti (now + ttl_ms) p.used in
    elim (Bool-cases (is_marked now (lookup jti p.used))) [
      | inl again ↦ rw again pv
      | inr first ↦ rw first (record {
        distinct = rw (enforce_cap-used ceiling (record p { used = m })) (
            drop-IsDistinct (length m - ceiling) m
              (insert-IsDistinct jti (now + ttl_ms) p.used pv.distinct));
        bounded =
            rw (enforce_cap-used ceiling (record p { used = m }))
              (omega (arith, length-drop (length m - ceiling) m));
      })
    ]

-- Whatever is marked and whenever, the store keeps each token once and at most 100000 tokens.
pub mark_used-IsValid :
    (jti : String) (ttl_ms now : ℕ) (s : Store)
    → IsValid max_entries s
    → IsValid max_entries (mark_used jti ttl_ms now s).1
unfolding mark_used
mark_used-IsValid jti ttl_ms now s v = mark_used_below-IsValid max_entries jti ttl_ms now s v
