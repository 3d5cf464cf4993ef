-- ===== src/Types/Json.antt =====
-- A parsed JSON value: the `unknown` of types.ts.
use lesspaper_ngl.Prelude.{
  Bool, List, Option, String, [], if◌then◌else◌, nat_eq, none, option_eq, some, text_eq, ◌==◌, ◌∷◌,
}

mutual
  pub data Json : Type 0 where
    null : Json
    bool : Bool → Json
    -- a number, by the text that writes it
    number : String → Json
    text : String → Json
    array : Items → Json
    object : Fields → Json

  pub data Items : Type 0 where
    nil : Items
    cons : Json → Items → Items

  pub data Fields : Type 0 where
    end : Fields
    field : String → Json → Fields → Fields

-- `obj.key`, undefined as `none`
unfoldable pub get_field : Fields → String → Option Json
get_field Fields.end k = none
get_field (Fields.field j v rest) k = if j == k then some v else get_field rest k

-- `typeof v === "string"`
abbrev pub as_text : Option Json → Option String
as_text (some (Json.text s)) = some s
as_text _ = none

-- the elements of an array in order
unfoldable pub to_list : Items → List Json
to_list Items.nil = []
to_list (Items.cons v vs) = v ∷ to_list vs
