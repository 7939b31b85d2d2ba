-- ===== src/StringProc/Split.antt =====
-- src/wstangoproc_common/StringProc.cpp: cutting texts apart. `parse_loop` is the `while` loop on
-- fuel; a text has fewer separators than characters, so `count s + 1` rounds are enough.
pub mod Find
pub mod Rejoin
pub mod Query
use Prim.Native.Char.{Char, code}
use Prim.Native.String.{count}
use web_socket_ds.Base.{
  ◌≡◌, refl, ℕ, zero, suc, ◌-◌, String, ◌<>◌, Bool, true, false, List, [], ◌∷◌, ◌++◌, Option, none,
  some, if◌then◌else◌, is_nil, is_empty, nonempty, str_beq, nat_beq, same_char, length,
}
use web_socket_ds.Base.Dict.{Dict, insert_new, string_eq}
use Find.{find_split}

-- What the loop has when it ends.
pub record Cut : Type 0 where
  pub rest : String
  pub firstiter : Bool
  pub name_attr : String
  pub parsed : List String

-- `while ((pos = s.find(delimiter)) != npos) { … }`
pub parse_loop : ℕ → String → Cut → Cut
parse_loop zero d c = c
parse_loop (suc fuel) d c = elim (find_split d c.rest) [
  | none ↦ c
  | some (token, rest) ↦ parse_loop fuel d (record {
    rest = rest;
    firstiter = false;
    name_attr = if c.firstiter then token else c.name_attr;
    parsed = if c.firstiter then c.parsed else c.parsed ++ token ∷ [];
  })
]

pub cut_start : String → Cut
cut_start inp = record { rest = inp; firstiter = true; name_attr = ""; parsed = [] }

-- What follows the loop: the text that `inp` becomes, and the parts.
pub parse_end : String → Bool → Cut → String × List String
parse_end inp is_all_parts c =
    if c.firstiter then (c.rest, if is_all_parts then inp ∷ [] else []) else (
      c.name_attr,
      if is_all_parts then c.name_attr ∷ (c.parsed ++ c.rest ∷ []) else c.parsed ++ c.rest ∷ [],
    )

-- `parseInputString(inp, delimiter, isAllParts)`: the new value of `inp`, and the parts.
unfoldable pub parse_input_string : String → String → Bool → String × List String
unfolding parse_loop cut_start parse_end find_split
parse_input_string inp d is_all_parts =
    parse_end inp is_all_parts (parse_loop (suc (count inp)) d (cut_start inp))

-- `split(s, delim)`: `getline` until the stream ends; a text that ends at a separator has no part
-- behind it.
split_from : Char → String → String → List String
split_from d cur String.[] = if is_empty cur then [] else cur ∷ []
split_from d cur (String.◌∷◌ c s) =
    let rest = split_from d (if same_char c d then "" else cur <> String.◌∷◌ c String.[]) s in
    if same_char c d then cur ∷ rest else rest

unfoldable pub split : Char → String → List String
unfolding split_from
split d s = split_from d "" s

-- `tmpStr.size() != 2` continues.
abbrev insert_pair : List String → Dict String String → Dict String String
insert_pair (k ∷ v ∷ []) out = insert_new k v out
insert_pair _ out = out

query_from : Dict String String → List String → Dict String String
query_from out [] = out
query_from out (str ∷ strs) = query_from (insert_pair (split "=" str) out) strs

unfoldable pub parse_of_get_query : String → Dict String String
unfolding query_from split insert_new
parse_of_get_query query = query_from [] (split "&" query)

-- The text up to the first "]"; `none` where there is none.
up_to : Char → String → Option String
up_to d String.[] = none
up_to d (String.◌∷◌ c s) =
    if same_char c d
    then some String.[]
    else elim (up_to d s) [ none ↦ none | some t ↦ some (String.◌∷◌ c t) ]

-- The text behind the last ":"; `none` where there is none.
behind_last : Char → String → Option String
behind_last d String.[] = none
behind_last d (String.◌∷◌ c s) = elim (behind_last d s) [
  | none ↦ if same_char c d then some s else none
  | some t ↦ some t
]

unfoldable pub parse_of_address : String → String
unfolding up_to behind_last
parse_of_address addr = elim (up_to "]" addr) [
  | none ↦ ""
  | some host ↦ elim (behind_last ":" host) [ none ↦ "" | some ip ↦ ip ]
]

abbrev device_of : List String → String × String
device_of (a ∷ b ∷ c ∷ []) = ("", a <> "/" <> b <> "/" <> c)
device_of (a ∷ _ ∷ c ∷ d ∷ e ∷ f ∷ []) = (a <> "//" <> c <> "/", d <> "/" <> e <> "/" <> f)
device_of _ = ("", "")

-- The host with its protocol, and the device.
unfoldable pub split_device_name : String → String × String
unfolding parse_input_string
split_device_name device_name = device_of (parse_input_string device_name "/" true).1

unfoldable pub count_char : Char → String → ℕ
count_char d String.[] = 0
count_char d (String.◌∷◌ c s) =
    let rest = count_char d s in if same_char c d then suc rest else rest

unfoldable pub is_name_alias : String → Bool
unfolding count_char
is_name_alias name =
    let slashes = count_char "/" name in
    if nat_beq slashes 2 then false else if nat_beq slashes 5 then false else true

cut_example :
    (parse_input_string "Attr;prec=5;x" ";" false ≡ ("Attr", "prec=5" ∷ "x" ∷ []))
    × (parse_input_string "tident=smpl" "=" true ≡ ("tident", "tident" ∷ "smpl" ∷ []))
    × (parse_input_string "" "," true ≡ ("", "" ∷ []))
    × (parse_of_get_query "login=ann&password=&x=1&login=bob"
        ≡ (("login", "ann") ∷ ("x", "1") ∷ []))
    × (parse_of_address "[::ffff:10.0.0.1]:4711" ≡ "10.0.0.1")
    × (split_device_name "tango://h:10000/sys/tg_test/1" ≡ ("tango://h:10000/", "sys/tg_test/1"))
unfolding parse_input_string parse_of_get_query parse_of_address split_device_name
cut_example = (refl, refl, refl, refl, refl, refl)
