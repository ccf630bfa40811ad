-- ===== src/Json.antt =====
-- Canonical JSON, as lifecycle events and certificates are hashed
-- (src/modules/procurement/application/procure-to-pay-lifecycle-event-builder.ts,
-- `canonicalizeProcureToPayValue`). Numbers are whole and not negative: the code passes no others.
pub mod Sorting
pub mod Reordering
use Prim.Native.Char.{Char, code}
use Prim.Native.String
use blockchain_based_e_procu.Prelude.{
  ℕ, String, Bool, true, false, List, [], ◌∷◌, ◌++◌, ◌≡◌, refl, ◌-◌, ◌+◌, ◌/◌, ◌%◌, ltb, ◌==◌,
  if◌then◌else◌,
}
use blockchain_based_e_procu.Prelude.Text.{◌<>◌}
use blockchain_based_e_procu.Prelude.Decimal.{show, digit}

mutual
  pub data Json : Type 0 where
    undefined null : Json
    bool : Bool → Json
    num : ℕ → Json
    str : String → Json
    arr : Items → Json
    obj : Fields → Json

  pub data Items : Type 0 where
    nil : Items
    cons : Json → Items → Items

  pub data Fields : Type 0 where
    end : Fields
    field : String → Json → Fields → Fields

hex : ℕ → String
unfolding digit
hex n =
    if ltb n 10
    then String.◌∷◌ (digit n) String.[]
    else if n == 10
    then "a"
    else if n == 11
    then "b"
    else if n == 12
    then "c"
    else if n == 13
    then "d"
    else if n == 14
    then "e"
    else "f"

-- One character in the text that `JSON.stringify` makes of a string.
escape : Char → String
unfolding hex
escape c =
    if code c == 34
    then "\\\""
    else if code c == 92
    then "\\\\"
    else if code c == 8
    then "\\b"
    else if code c == 9
    then "\\t"
    else if code c == 10
    then "\\n"
    else if code c == 12
    then "\\f"
    else if code c == 13
    then "\\r"
    else if ltb (code c) 32
    then "\\u00" <> hex (code c / 16) <> hex (code c % 16)
    else String.◌∷◌ c String.[]

escape_all : String → String
unfolding escape
escape_all String.[] = ""
escape_all (String.◌∷◌ c s) = escape c <> escape_all s

-- `JSON.stringify` of a string.
unfoldable pub quote : String → String
unfolding escape_all
quote s = "\"" <> escape_all s <> "\""

-- The UTF-16 units of a text, by which `Array.prototype.sort` compares.
unfoldable pub units : String → List ℕ
units String.[] = []
units (String.◌∷◌ c s) =
    if ltb (code c) 0x10000
    then code c ∷ units s
    else (0xD800 + (code c - 0x10000) / 0x400) ∷ (0xDC00 + (code c - 0x10000) % 0x400) ∷ units s

unfoldable pub le_units : List ℕ → List ℕ → Bool
le_units [] bs = true
le_units (a ∷ as') [] = false
le_units (a ∷ as') (b ∷ bs) =
    let rest = le_units as' bs in if ltb a b then true else if a == b then rest else false

abbrev pub Entry : Type 0
Entry = String × String

-- `keys.sort()`, on the keys with the text of their values
unfoldable pub insert : Entry → List Entry → List Entry
unfolding le_units units
insert e [] = e ∷ []
insert e (f ∷ fs) = if le_units (units e.0) (units f.0) then e ∷ f ∷ fs else f ∷ insert e fs

unfoldable pub sort : List Entry → List Entry
unfolding insert
sort [] = []
sort (e ∷ es) = insert e (sort es)

-- `JSON.stringify(key) + ':' + value`, joined by commas
unfoldable pub join_entries : List Entry → String
unfolding quote
join_entries [] = ""
join_entries ((k, v) ∷ []) = quote k <> ":" <> v
join_entries ((k, v) ∷ e ∷ es) = quote k <> ":" <> v <> "," <> join_entries (e ∷ es)

-- The text of an undefined value is empty, as `join` reads it in an array; an undefined field is
-- left out.
unfoldable mutual
  unfolding quote sort join_entries show

  pub canonicalize : Json → String
  canonicalize undefined = ""
  canonicalize null = "null"
  canonicalize (bool true) = "true"
  canonicalize (bool false) = "false"
  canonicalize (num n) = show n
  canonicalize (str s) = quote s
  canonicalize (arr xs) = "[" <> canonical_items xs <> "]"
  canonicalize (obj fs) = "{" <> join_entries (sort (entries fs)) <> "}"

  pub canonical_items : Items → String
  canonical_items nil = ""
  canonical_items (cons x nil) = canonicalize x
  canonical_items (cons x (cons y ys)) = canonicalize x <> "," <> canonical_items (cons y ys)

  pub entries : Fields → List Entry
  entries end = []
  entries (field k undefined fs) = entries fs
  entries (field k v fs) = (k, canonicalize v) ∷ entries fs

sample :
    canonicalize (
      obj (
        field "b"
          (num 12)
          (field "x" undefined (field "a\n" (arr (cons null (cons (str "q\"") nil))) end))))
    ≡ "{\"a\\n\":[null,\"q\\\"\"],\"b\":12}"
unfolding canonicalize
sample = refl
