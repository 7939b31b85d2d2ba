-- ===== src/StringProc/OneLine.antt =====
-- src/wstangoproc_common/StringProc.cpp, `removeSymbolsForString`: what `send` hands to a client is
-- one line.
use Prim.Native.Char.{code}
use Prim.Native.String.{count}
use text.Mathlib.TextLemmas.{cons-append, nil-append, length-cons}
use web_socket_ds.Base.{
  ◌≡◌, refl, ap, ℕ, ◌≤◌, String, ◌<>◌, Bool, false, ◌||◌, arith, nat_beq, if_holds, ◌∙◌,
}
use web_socket_ds.StringProc.Response.{remove_symbols_for_string}

-- A carriage return or a line feed somewhere in the text.
abbrev pub has_break : String → Bool
has_break String.[] = false
has_break (String.◌∷◌ c s) = nat_beq (code c) 13 || nat_beq (code c) 10 || has_break s

blank-append : (s : String) → " " <> s ≡ String.◌∷◌ " " s
blank-append s = cons-append " " "" s ∙ ap (String.◌∷◌ " ") (nil-append s)

-- One line, and no longer than `n`.
abbrev OneLine : ℕ → String → Type 0
OneLine n s = (has_break s ≡ false) × (count s ≤ n)

-- A text without its carriage returns and with blanks for its line feeds has no line break, and is
-- no longer than it was.
pub remove_symbols_for_string-has_break :
    (s : String)
    → (has_break (remove_symbols_for_string s) ≡ false)
      × (count (remove_symbols_for_string s) ≤ count s)
unfolding remove_symbols_for_string
remove_symbols_for_string-has_break String.[] = (refl, omega arith)
remove_symbols_for_string-has_break (String.◌∷◌ c s) =
    let (clean, short) = remove_symbols_for_string-has_break s in
    let rest = remove_symbols_for_string s in
    let longer = length-cons c s in
    let blank = length-cons " " rest in
    let same = length-cons c rest in
    if_holds (OneLine (count (String.◌∷◌ c s))) (nat_beq (code c) 13) _ _
      (λ h. (clean, omega (arith, longer, short)))
      (λ h1.
        if_holds (OneLine (count (String.◌∷◌ c s))) (nat_beq (code c) 10) _ _
          (λ h. rw (blank-append rest) (clean, omega (arith, longer, short, blank)))
          (λ h2. (ground arith, omega (arith, longer, short, same))))
