-- ===== src/Devices/Braces.antt =====
-- src/wstangoproc_common/TangoProcessor.cpp: the braces of the answers to commands, and the
-- precision of floats.
use Prim.Native.Char.{Char}
use text.Mathlib.TextLemmas.{nil-append, cons-append}
use web_socket_ds.Base.{
  ◌≡◌, refl, ap, ℕ, zero, suc, ◌+◌, ◌≤◌, String, ◌<>◌, Bool, true, false, ◌&&◌, arith, if_holds,
  if◌then◌else◌, nonempty, ltb, ◌/◌, ◌%◌, Option-cases, inl, inr, str_beq,
}
use web_socket_ds.Base.Int.{ℤ, pos, negsuc, stoi, show_int, show_nat, show_from, digit}
use web_socket_ds.Wire.{TypeWsReq}
use web_socket_ds.StringProc.Split.{count_char, parse_input_string}
use web_socket_ds.Connections.{TaskInfo}
use web_socket_ds.Devices.{TangoType, DeviceData, Formats, TypeIosOpt, prec, precf, precs}
use web_socket_ds.Devices.Values.{
  po_name, po_val, float_format, precision_in, get_srsz, generate_json_from_device_data,
}
use web_socket_ds.Devices.Answering.{
  id_req_text, old_head, new_names, generate_head, command_response, command_response_of_group,
  is_command_task, is_group_task, is_write_task, is_read_task,
}

precision_in_le : (n : ℤ) → precision_in n ≤ 20
unfolding precision_in
precision_in_le (pos n) = ground arith
precision_in_le (negsuc n) = ground arith

abbrev pick : Bool → Bool → Bool → (i j k l : TypeIosOpt) → ℤ → ℤ → TypeIosOpt × ℕ
pick a b c i j k l x y =
    if a
    then (i, precision_in x)
    else if b
    then (j, precision_in x)
    else if c
    then (k, precision_in x)
    else (l, precision_in y)

pick_le : (a b c : Bool) (i j k l : TypeIosOpt) (x y : ℤ) → (pick a b c i j k l x y).1 ≤ 20
pick_le true b c i j k l x y = precision_in_le x
pick_le false true c i j k l x y = precision_in_le x
pick_le false false true i j k l x y = precision_in_le x
pick_le false false false i j k l x y = precision_in_le y

-- Whatever the option of a request says, a float is written with a precision of 20 at most.
float_format_le : (opt : String) → (float_format opt).1 ≤ 20
unfolding float_format
float_format_le opt =
    let po = (parse_input_string opt "=" true).1 in
    pick_le (str_beq (po_name po) "prec") (str_beq (po_name po) "precf")
      (str_beq (po_name po) "precs") prec precf precs prec (get_srsz (po_val po)) (pos 6)

pub count_char-append :
    (c : Char) (s t : String) → count_char c (s <> t) ≡ count_char c s + count_char c t
unfolding count_char
count_char-append c String.[] t = rw (nil-append t) (omega arith)
count_char-append c (String.◌∷◌ e s) t =
    rw (cons-append e s t) (ground (arith, count_char-append c s t))

abbrev pub opens : String → ℕ
opens s = count_char "{" s

abbrev pub closes : String → ℕ
closes s = count_char "}" s

-- No brace of either kind.
abbrev pub Clean : String → Type 0
Clean s = (opens s ≡ 0) × (closes s ≡ 0)

append-Clean : (s t : String) → Clean s → Clean t → Clean (s <> t)
append-Clean s t (os, cs) (ot, ct) =
    (omega (arith, count_char-append "{" s t), omega (arith, count_char-append "}" s t))

digit-Clean : (n : ℕ) → Clean (digit n)
unfolding count_char
digit-Clean zero = (refl, refl)
digit-Clean (suc zero) = (refl, refl)
digit-Clean (suc (suc zero)) = (refl, refl)
digit-Clean (suc (suc (suc zero))) = (refl, refl)
digit-Clean (suc (suc (suc (suc zero)))) = (refl, refl)
digit-Clean (suc (suc (suc (suc (suc zero))))) = (refl, refl)
digit-Clean (suc (suc (suc (suc (suc (suc zero)))))) = (refl, refl)
digit-Clean (suc (suc (suc (suc (suc (suc (suc zero))))))) = (refl, refl)
digit-Clean (suc (suc (suc (suc (suc (suc (suc (suc zero)))))))) = (refl, refl)
digit-Clean _ = (refl, refl)

show_from-Clean : (fuel n : ℕ) → Clean (show_from fuel n)
unfolding show_from count_char
show_from-Clean zero n = (refl, refl)
show_from-Clean (suc fuel) n =
    if_holds Clean (ltb n 10) _ _ (λ a. digit-Clean n)
      (λ a.
        append-Clean (show_from fuel (n / 10)) (digit (n % 10)) (show_from-Clean fuel (n / 10))
          (digit-Clean (n % 10)))

show_int-Clean : (n : ℤ) → Clean (show_int n)
unfolding show_int show_nat count_char
show_int-Clean (pos n) = show_from-Clean 20 n
show_int-Clean (negsuc n) =
    append-Clean "-" (show_nat (n + 1)) (refl, refl) (show_from-Clean 20 (n + 1))

id_req_text-Clean : (id : String) → Clean (id_req_text id)
unfolding id_req_text count_char
id_req_text-Clean id = elim (Option-cases (stoi id)) [
  | inl bad ↦ rw (bad, id_req_text) (refl, refl)
  | inr (n, is_n) ↦
      rw (is_n, id_req_text)
        (append-Clean " \"id_req\": " (show_int n <> ",") (refl, refl)
          (append-Clean (show_int n) "," (show_int-Clean n) (refl, refl)))
]

module _ (name : String) (clean : Clean name) where
  named-Clean : (b : Bool) → Clean (if b then "\"device_name\": \"" <> name <> "\", " else "")
  unfolding count_char
  named-Clean true =
      append-Clean "\"device_name\": \"" (name <> "\", ") (refl, refl)
        (append-Clean name "\", " clean (refl, refl))
  named-Clean false = (refl, refl)

  unnamed-Clean : (b : Bool) → Clean (if b then "" else "\"device_name\": \"" <> name <> "\", ")
  unfolding count_char
  unnamed-Clean true = (refl, refl)
  unnamed-Clean false = named-Clean true

  group_part :
      (b : Bool)
      → let part = if b then "{\"" <> name <> "\": " else "" in
        (opens part ≡ (if b then 1 else 0)) × (closes part ≡ 0)
  unfolding count_char
  group_part true = simp count_char-append (omega (arith, clean.0), omega (arith, clean.1))
  group_part false = (refl, refl)

group_end :
    (b : Bool)
    → let part : String = if b then "}" else "" in
      (opens part ≡ 0) × (closes part ≡ (if b then 1 else 0))
unfolding count_char
group_end true = (refl, refl)
group_end false = (refl, refl)

module _ (t : TaskInfo) (command : t.type_asynq_req ≡ TypeWsReq.command)
    (type_clean : Clean t.type_req_str) (device_clean : Clean t.device_name)
    (name_clean : Clean t.req_name) where
  kinds : (is_command_task t ≡ true) × ((is_write_task t ≡ false) × (is_read_task t ≡ false))
  kinds = (
    ap (λ (k : TypeWsReq). elim k [ TypeWsReq.command ↦ true | _ ↦ false ]) command,
    (
      ap (λ (k : TypeWsReq). elim k [ TypeWsReq.attribute_write ↦ true | _ ↦ false ]) command,
      ap (λ (k : TypeWsReq). elim k [ TypeWsReq.attribute_read ↦ true | _ ↦ false ]) command,
    ),
  )

  abbrev extra : Bool → ℕ
  extra old = if old then (if is_group_task t then 2 else 1) else 0

  head_braces :
      (old : Bool)
      → (opens (generate_head t old) ≡ 1 + extra old) × (closes (generate_head t old) ≡ 0)
  unfolding generate_head old_head new_names count_char
  head_braces true =
      let id = id_req_text-Clean t.id_req in
      let unnamed = unnamed-Clean t.device_name device_clean (is_group_task t) in
      let part = group_part t.device_name device_clean (is_group_task t) in
      simp (kinds.0, kinds.1.0, kinds.1.1, count_char-append)
        (
          ground (arith, id.0, unnamed.0, part.0, type_clean.0, name_clean.0),
          ground (arith, id.1, unnamed.1, part.1, type_clean.1, name_clean.1),
        )
  head_braces false =
      let id = id_req_text-Clean t.id_req in
      let named = named-Clean t.device_name device_clean (nonempty t.device_name) in
      simp (kinds.0, kinds.1.0, count_char-append)
        (
          omega (arith, id.0, named.0, type_clean.0, name_clean.0),
          omega (arith, id.1, named.1, type_clean.1, name_clean.1),
        )

  -- The braces of an answer to a command are even, for any reply with even braces and names without
  -- braces, but for one case: the answer that the client build makes for a device of a group in the
  -- old version of the JSON lacks a closing brace. The answer for a group of the server build has it.
  pub command_response_braces :
      {F : Type 0} (f : Formats F) (old : Bool) (out : TangoType × DeviceData F)
      → opens (generate_json_from_device_data f t.user_options out)
        ≡ closes (generate_json_from_device_data f t.user_options out)
      → (opens (command_response_of_group f t old out)
          ≡ closes (command_response_of_group f t old out))
        × (opens (command_response f t old out)
            ≡ closes (command_response f t old out) + (if old && is_group_task t then 1 else 0))
  unfolding command_response command_response_of_group count_char
  command_response_braces f true out even =
      let head = head_braces true in
      simp count_char-append (
        ground (arith, head.0, head.1, group_end (is_group_task t)),
        ground (arith, head.0, head.1),
      )
  command_response_braces f false out even =
      let head = head_braces false in
      simp count_char-append (omega (arith, head.0, head.1), omega (arith, head.0, head.1))
