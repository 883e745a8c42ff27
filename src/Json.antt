-- ===== src/Json.antt =====
-- JSON values as the request bodies and the JSON columns of the dashboards table hold them, with
-- the tests that JavaScript makes on them. Numbers are natural; `undefined` is `none`.
use lo_ra_dbase.Common.{
  ℕ, String, Bool, true, false, not, Option, none, some, ◌==◌, nat_eq, string_eq, if◌then◌else◌,
}

mutual
  pub data Json : Type 0 where
    null : Json
    bool : Bool → Json
    num : ℕ → Json
    str : String → Json
    arr : Items → Json
    obj : Fields → Json

  pub data Items : Type 0 where
    nil : Items
    cons : Json → Items → Items

  pub data Fields : Type 0 where
    end : Fields
    field : String → Json → Fields → Fields

field_of : String → Fields → Option Json
field_of k end = none
field_of k (field j v fs) = if j == k then some v else field_of k fs

-- `value.k` of an object; other values have none of the properties that the program reads.
unfoldable pub get : String → Json → Option Json
unfolding field_of
get k (obj fs) = field_of k fs
get k _ = none

-- what `!value` negates
unfoldable pub is_truthy : Json → Bool
is_truthy null = false
is_truthy (bool b) = b
is_truthy (num n) = not (n == 0)
is_truthy (str s) = not (s == "")
is_truthy (arr _) = true
is_truthy (obj _) = true

unfoldable pub is_truthy? : Option Json → Bool
unfolding is_truthy
is_truthy? none = false
is_truthy? (some v) = is_truthy v

-- Array.isArray
unfoldable pub is_array : Json → Bool
is_array (arr _) = true
is_array _ = false

-- `value.length > 0` of an array
unfoldable pub has_items : Json → Bool
has_items (arr (cons _ _)) = true
has_items (str s) = not (s == "")
has_items _ = false
