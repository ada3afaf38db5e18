-- ===== src/Common/Pagination.antt =====
-- src/common/utils/pagination.util.ts: the page that a query asks for, and what a listing says of
-- its pages.
pub mod Walk
use nestjs_hexagonal_templat.Prelude.{
  ℕ, zero, suc, ◌+◌, ◌-◌, ◌*◌, ◌/◌, ◌%◌, ◌^◌, ◌≤◌, ◌<◌, String, ◌≡◌, refl, sym, ap, ◌∙◌, ◌≢◌, ◌↔◌,
  ◌⊎◌, inl, inr, Bool, true, false, not, ◌&&◌, ◌||◌, Option, none, some, List, [], ◌∷◌, ◌++◌, map,
  arith, ◌==◌, eq_iff, eq_refl, ltb, leb, eqb, if◌then◌else◌, Bool-cases, Option-cases, str_cases,
  length, get_elem?, take, drop, any, all, keep, find, count_if, All, length-append, length-drop,
  length-keep-le, length-map, tests, ltb→lt, lt→ltb, leb→le, le→leb,
}
use native.Mathlib.Nat.{mod-lt, div-add-mod', mul-le-mul_right}
use Prim.Native.Nat.{min}
use Prim.Native.Nat.mul
use Prim.Native.String
use nestjs_hexagonal_templat.Prelude.Int.{ℤ, pos, negsuc}
use nestjs_hexagonal_templat.Common.Text.{parse_int}

-- The query parameters; none is `undefined`.
pub record PageQuery : Type 0 where
  pub page : Option String
  pub per_page : Option String

pub record PaginationParams : Type 0 where
  pub page : ℕ
  pub per_page : ℕ

pub record PaginationMeta : Type 0 where
  pub total : ℕ
  pub page : ℕ
  pub per_page : ℕ
  pub total_pages : ℕ
  pub has_next : Bool
  pub has_previous : Bool

-- Math.max(1, parseInt(s, 10) || n), for n of at least 1: NaN and 0 are falsy.
abbrev pub at_least_one : Option ℤ → ℕ → ℕ
at_least_one none n = n
at_least_one (some (pos zero)) n = n
at_least_one (some (pos (suc m))) n = suc m
at_least_one (some (negsuc m)) n = 1

abbrev pub or_text : Option String → String → String
or_text none default = default
or_text (some s) default = s

unfoldable pub parse_pagination_params : PageQuery → PaginationParams
unfolding parse_int
parse_pagination_params query = record {
  page = at_least_one (parse_int (or_text query.page "1")) 1;
  per_page = min 100 (at_least_one (parse_int (or_text query.per_page "20")) 20);
}

-- Math.ceil(a / b), for b of at least 1
abbrev pub ceil_div : ℕ → ℕ → ℕ
ceil_div a b = if eqb (a % b) 0 then a / b else suc (a / b)

unfoldable pub build_pagination_meta : ℕ → ℕ → ℕ → PaginationMeta
build_pagination_meta total page per_page =
    let total_pages = ceil_div total per_page in
    record {
      total = total;
      page = page;
      per_page = per_page;
      total_pages = total_pages;
      has_next = ltb page total_pages;
      has_previous = ltb 1 page;
    }

pub data SortOrder : Type 0 where
  asc desc : SortOrder

-- parseSortParam: the field and its order.
unfoldable pub parse_sort_param : Option String → Option (String × SortOrder)
parse_sort_param none = none
parse_sort_param (some String.[]) = none
parse_sort_param (some (String.◌∷◌ c s)) =
    if String.◌∷◌ c "" == "-" then some (s, desc) else some (String.◌∷◌ c s, asc)

-- There is a next page exactly when the pages so far do not hold every entry, for any page size
-- but 0.
pub has_next_lem :
    (total page per_page : ℕ)
    → 0 < per_page
    → (build_pagination_meta total page per_page).has_next ≡ ltb (page * per_page) total
unfolding build_pagination_meta
has_next_lem total page per_page h =
    let whole = div-add-mod' total per_page in
    let part = mod-lt total h in
    elim (compare page (total / per_page)) [
      | inl less ↦
          let step = mul-le-mul_right per_page less in
          let next = mul.suc page per_page in ground (arith, whole, part, step, next)
      | inr (inl same) ↦
          let step = ap (λ n. n * per_page) same in ground (arith, whole, part, step, same)
      | inr (inr more) ↦
          let step = mul-le-mul_right per_page more in
          let next = mul.suc (total / per_page) per_page in ground (arith, whole, part, step, next)
    ]
  where
    compare : (a b : ℕ) → (a < b) ⊎ ((a ≡ b) ⊎ (b < a))
    compare a b = ground arith

-- What is asked for is a page of 1 to 100 entries, counted from 1, whatever the query says.
pub parse_pagination_params_lem :
    (query : PageQuery)
    → (1 ≤ (parse_pagination_params query).page)
      × (1 ≤ (parse_pagination_params query).per_page)
      × ((parse_pagination_params query).per_page ≤ 100)
unfolding parse_pagination_params
parse_pagination_params_lem query = (
  positive (parse_int (or_text query.page "1")) 1 (omega arith),
  omega (arith, positive (parse_int (or_text query.per_page "20")) 20 (omega arith)),
  omega arith,
)
  where
    positive : (z : Option ℤ) (n : ℕ) → 1 ≤ n → 1 ≤ at_least_one z n
    positive none n h = h
    positive (some (pos zero)) n h = h
    positive (some (pos (suc m))) n h = omega arith
    positive (some (negsuc m)) n h = omega arith
