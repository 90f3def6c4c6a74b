-- ===== src/Json.antt =====
-- The values that `JSON.parse` returns, which the source types as `unknown` and narrows by hand
-- (apps/api/src/modules/webhooks/webhook.schema.ts). Of a number with a fraction only what
-- `Math.trunc` leaves of it is kept; a literal past the largest double is read as an infinity.
use ai_powered_github_pr_rev.Prelude.{
  String, Bool, Option, none, some, if◌then◌else◌, List, [], ◌∷◌,
}
use ai_powered_github_pr_rev.Prelude.Equality.{◌==◌, text_equality}
use ai_powered_github_pr_rev.Prelude.Int.{ℤ}

pub data JsNumber : Type 0 where
  whole : ℤ → JsNumber
  fractional : ℤ → JsNumber
  infinite : Bool → JsNumber

mutual
  pub data Json : Type 0 where
    null : Json
    bool : Bool → Json
    num : JsNumber → Json
    str : String → Json
    arr : Items → Json
    obj : Fields → Json

  pub data Items : Type 0 where
    nil : Items
    cons : Json → Items → Items

  pub data Fields : Type 0 where
    end : Fields
    field : String → Json → Fields → Fields

abbrev pub items : Items → List Json
items nil = []
items (cons v vs) = v ∷ items vs

abbrev pub to_items : List Json → Items
to_items [] = nil
to_items (v ∷ vs) = cons v (to_items vs)

unfoldable pub find_field : String → Fields → Option Json
find_field name end = none
find_field name (field k v rest) = if k == name then some v else find_field name rest

-- Reading a property; `none` is `undefined`. A value that is no object has none of the names read.
unfoldable pub get_field : String → Json → Option Json
unfolding find_field
get_field name (obj fields) = find_field name fields
get_field name null = none
get_field name (bool b) = none
get_field name (num n) = none
get_field name (str s) = none
get_field name (arr vs) = none

-- Optional chaining.
unfoldable pub get_field? : String → Option Json → Option Json
unfolding get_field
get_field? name none = none
get_field? name (some v) = get_field name v

unfoldable pub as_string : Option Json → Option String
as_string (some (str s)) = some s
as_string none = none
as_string (some null) = none
as_string (some (bool b)) = none
as_string (some (num n)) = none
as_string (some (arr vs)) = none
as_string (some (obj fs)) = none

unfoldable pub as_number : Option Json → Option JsNumber
as_number (some (num n)) = some n
as_number none = none
as_number (some null) = none
as_number (some (bool b)) = none
as_number (some (str s)) = none
as_number (some (arr vs)) = none
as_number (some (obj fs)) = none
