-- ===== src/Sample/Schema.antt =====
-- src/sample/application/dtos/sample.dto.ts: the schemas of the bodies, and what they let pass.
use nestjs_hexagonal_templat.Prelude.{ℕ, String, ◌≡◌, Option, none, some, ◌*◌, arith}
use nestjs_hexagonal_templat.Prelude.Int.{pos}
use nestjs_hexagonal_templat.Common.Json.{Json, num, obj, str, Fields, end, field, get}
use nestjs_hexagonal_templat.Common.Pipes.{
  ◌>>=◌, bind_passed, Schema, text_between, whole_to, boolean, optional, nullable, fields_of,
  max_safe_integer,
}
use nestjs_hexagonal_templat.Common.Pipes.Bounds.{
  HasLength, IsAtMost, text_between-HasLength, optional-HasLength, optional-IsAtMost,
}
use nestjs_hexagonal_templat.Sample.{
  CreateSampleDto, UpdateSampleDto, ScheduleSampleDeactivationDto,
}

unfoldable pub create_sample_schema : Schema CreateSampleDto
unfolding get optional text_between whole_to
create_sample_schema body = do
  fs ← fields_of body
  name ← text_between 2 255 (get "name" fs)
  description ← optional (text_between 0 1000) (get "description" fs)
  sort_order ← optional (whole_to max_safe_integer) (get "sortOrder" fs)
  some (record { name = name; description = description; sort_order = sort_order })

unfoldable pub update_sample_schema : Schema UpdateSampleDto
unfolding get optional nullable text_between whole_to boolean
update_sample_schema body = do
  fs ← fields_of body
  name ← optional (text_between 2 255) (get "name" fs)
  description ← optional (nullable (text_between 0 1000)) (get "description" fs)
  is_active ← optional boolean (get "isActive" fs)
  sort_order ← optional (whole_to max_safe_integer) (get "sortOrder" fs)
  some (record {
    name = name;
    description = description;
    is_active = is_active;
    sort_order = sort_order;
  })

abbrev pub or_zero : Option ℕ → ℕ
or_zero none = 0
or_zero (some n) = n

-- `.optional().default(0)`
unfoldable pub schedule_sample_deactivation_schema : Schema ScheduleSampleDeactivationDto
unfolding get optional whole_to
schedule_sample_deactivation_schema body = do
  fs ← fields_of body
  delay_ms ← optional (whole_to (24 * 60 * 60 * 1000)) (get "delayMs" fs)
  some (record { delay_ms = or_zero delay_ms })

abbrev pub IsBounded : CreateSampleDto → Type 0
IsBounded dto =
    HasLength 2 255 (some dto.name)
    × HasLength 0 1000 dto.description
    × IsAtMost max_safe_integer dto.sort_order

-- A body that the schema of a creation lets pass has a name of 2 to 255 code units of UTF-16, a
-- description of at most 1000, if any, and an order of 0 to 9007199254740991, if any.
pub create_sample_schema-IsBounded :
    (body : Option Json) (dto : CreateSampleDto)
    → create_sample_schema body ≡ some dto
    → IsBounded dto
unfolding create_sample_schema
create_sample_schema-IsBounded body dto h =
    let (fs, f, h1) = bind_passed (fields_of body) _ dto h in
    let (name, n, h2) = bind_passed (text_between 2 255 (get "name" fs)) _ dto h1 in
    let (description, d, h3) =
      bind_passed (optional (text_between 0 1000) (get "description" fs)) _ dto h2 in
    let (sort_order, s, h4) =
      bind_passed (optional (whole_to max_safe_integer) (get "sortOrder" fs)) _ dto h3 in
    let made : IsBounded
        (record { name = name; description = description; sort_order = sort_order }) =
      (
        text_between-HasLength 2 255 (get "name" fs) name n,
        optional-HasLength 0 1000 (get "description" fs) description d,
        optional-IsAtMost max_safe_integer (get "sortOrder" fs) sort_order s,
      ) in
    let same : record { name = name; description = description; sort_order = sort_order } ≡ dto =
      ground (arith, h4) in
    rw (← same) made

-- The body that asks for a creation.
abbrev order_field : Option ℕ → Fields
order_field none = end
order_field (some n) = field "sortOrder" (num (pos n)) end

abbrev description_field : Option String → Fields → Fields
description_field none rest = rest
description_field (some s) rest = field "description" (str s) rest

abbrev pub body_of : CreateSampleDto → Json
body_of dto =
    obj
      (field "name" (str dto.name) (description_field dto.description (order_field dto.sort_order)))

-- Each creation within the bounds, of which the lengths count code units of UTF-16, can be asked for,
-- and is understood as it was meant.
pub create_sample_schema-body_of :
    (dto : CreateSampleDto) → IsBounded dto → create_sample_schema (some (body_of dto)) ≡ some dto
unfolding create_sample_schema get optional text_between whole_to
create_sample_schema-body_of dto h = made dto.name dto.description dto.sort_order h
  where
    made :
        (name : String) (description : Option String) (sort_order : Option ℕ)
        → IsBounded (record { name = name; description = description; sort_order = sort_order })
        → create_sample_schema (
            some (
              body_of (record { name = name; description = description; sort_order = sort_order })))
          ≡ some (record { name = name; description = description; sort_order = sort_order })
    made name none none h = ground arith
    made name none (some n) h = ground arith
    made name (some s) none h = ground arith
    made name (some s) (some n) h = ground arith
