-- ===== src/Common/Json.antt =====
-- Values as `JSON.parse` makes them, which is what the application receives as `unknown`. Numbers
-- are the integers; an object's fields stand in their order.
use nestjs_hexagonal_templat.Prelude.{
  zero, String, ◌≡◌, Bool, true, false, Option, none, some, ◌==◌, eq_iff, arith, if◌then◌else◌,
}
use nestjs_hexagonal_templat.Prelude.Int.{ℤ, pos}

mutual
  pub data Json : Type 0 where
    null : Json
    bool : Bool → Json
    num : ℤ → Json
    str : String → Json
    arr : Items → Json
    obj : Fields → Json

  pub data Items : Type 0 where
    nil : Items
    cons : Json → Items → Items

  pub data Fields : Type 0 where
    end : Fields
    field : String → Json → Fields → Fields

-- `fields[k]`, none for `undefined`.
unfoldable pub get : String → Fields → Option Json
get k end = none
get k (field j v fs) = if j == k then some v else get k fs

-- `delete fields[k]`
unfoldable pub delete : String → Fields → Fields
delete k end = end
delete k (field j v fs) = let rest = delete k fs in if j == k then rest else field j v rest

-- `value?.[k]` of a value that may be no object.
abbrev pub get_in : String → Json → Option Json
get_in k (obj fs) = get k fs
get_in k _ = none

abbrev truthy_number : ℤ → Bool
truthy_number (pos zero) = false
truthy_number _ = true

-- Whether JavaScript takes a value for true; `undefined` is none.
abbrev pub is_truthy : Option Json → Bool
is_truthy none = false
is_truthy (some null) = false
is_truthy (some (bool b)) = b
is_truthy (some (num n)) = truthy_number n
is_truthy (some (str s)) = if s == "" then false else true
is_truthy (some _) = true

pub get-delete :
    (k j : String) (fs : Fields) → get j (delete k fs) ≡ (if k == j then none else get j fs)
unfolding get delete
get-delete k j end = ground (arith, eq_iff k j)
get-delete k j (field i v fs) =
    ground (arith, eq_iff k j, eq_iff i k, eq_iff i j, get-delete k j fs)
