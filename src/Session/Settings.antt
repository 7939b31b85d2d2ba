-- ===== src/Session/Settings.antt =====
-- src/wstangoproc_common/WSTangoConn.cpp and WSThread_plain.cpp: whatever the options, the settings
-- stay within their bounds.
use web_socket_ds.Base.{
  ◌≡◌, refl, ℕ, ◌≤◌, ◌*◌, String, true, List, [], ◌∷◌, Option, none, some, arith, if_holds, str_beq,
  not, ◌||◌,
}
use web_socket_ds.Base.Int.{ℤ, stoi}
use web_socket_ds.Wire.{Mode}
use web_socket_ds.UserControl.{is_www, user_control}
use web_socket_ds.Session.Options.{
  WsTangoConn, ws_tango_conn, option_value, set_ident, set_check_user, set_check_permission,
  set_log, between, put_max_connections, put_max_buffer, set_max_connections, set_max_buffer,
  with_value, take_value, flags, init_option, init_options, max_buff_size,
}

-- The bounds, and that `UserControl` knows of `PERMISSION_WWW` when the connection does.
abbrev pub Bounded : WsTangoConn → Type 0
Bounded s =
    (s.max_num_of_connection ≤ 65535)
    × (1 ≤ s.max_buffer_size)
    × (s.max_buffer_size ≤ 10000)
    × (not (is_www s.type_of_ident) || is_www s.uc.toi ≡ true)

abbrev Keeps : (String → WsTangoConn → WsTangoConn) → Type 0
Keeps set = (text : String) (s : WsTangoConn) → Bounded s → Bounded (set text s)

between-bounds : (lo hi : ℕ) (z : Option ℤ) (n : ℕ) → between lo hi z ≡ some n → (lo ≤ n) × (n ≤ hi)
unfolding between
between-bounds lo hi z n h = ground arith

set_ident-Keeps : Keeps set_ident
unfolding set_ident
set_ident-Keeps text s (a, b, c, d) =
    if_holds Bounded (str_beq text "smpl") _ _ (λ h. (a, b, c, refl))
      (λ h.
        if_holds Bounded (str_beq text "permission_www") _ _ (λ h'. (a, b, c, refl))
          (λ h'. (a, b, c, refl)))

put_max_connections-Bounded :
    (found : Option ℕ) (s : WsTangoConn)
    → ((n : ℕ) → found ≡ some n → n ≤ 65535)
    → Bounded s
    → Bounded (put_max_connections found s)
unfolding put_max_connections
put_max_connections-Bounded none s h k = k
put_max_connections-Bounded (some n) s h (a, b, c, d) = (h n refl, b, c, d)

put_max_buffer-Bounded :
    (found : Option ℕ) (s : WsTangoConn)
    → ((n : ℕ) → found ≡ some n → (1 ≤ n) × (n ≤ 10000))
    → Bounded s
    → Bounded (put_max_buffer found s)
unfolding put_max_buffer
put_max_buffer-Bounded none s h k = k
put_max_buffer-Bounded (some n) s h (a, b, c, d) = (a, (h n refl).0, (h n refl).1, d)

set_max_connections-Keeps : Keeps set_max_connections
unfolding set_max_connections
set_max_connections-Keeps text s =
    put_max_connections-Bounded (between 0 65535 (stoi text)) s
      (λ n e. (between-bounds 0 65535 (stoi text) n e).1)

set_max_buffer-Keeps : Keeps set_max_buffer
unfolding set_max_buffer
set_max_buffer-Keeps text s =
    put_max_buffer-Bounded (between 1 10000 (stoi text)) s (between-bounds 1 10000 (stoi text))

with_value-Bounded :
    (set : String → WsTangoConn → WsTangoConn) (found : Option String) (s : WsTangoConn)
    → Keeps set
    → Bounded s
    → Bounded (with_value set found s)
unfolding with_value
with_value-Bounded set none s keeps h = h
with_value-Bounded set (some text) s keeps h = keeps text s h

take_value-Bounded :
    (key : String) (set : String → WsTangoConn → WsTangoConn) (x : String × WsTangoConn)
    → Keeps set
    → Bounded x.1
    → Bounded (take_value key set x).1
unfolding take_value
take_value-Bounded key set (opt, s) keeps h =
    with_value-Bounded set (option_value key opt).1 s keeps h

init_option-Bounded :
    (mode : Mode) (opt : String) (s : WsTangoConn) → Bounded s → Bounded (init_option mode opt s)
unfolding init_option set_check_user set_check_permission set_log flags
init_option-Bounded mode opt s h = take_value-Bounded _ _ _ set_max_buffer-Keeps (
    take_value-Bounded _ _ _ set_max_connections-Keeps (
      take_value-Bounded _ _ _ (λ text s h. h)
        (take_value-Bounded _ _ _ (λ text s h. h)
          (take_value-Bounded _ _ _ (λ text s h. h) (take_value-Bounded _ _ _ set_ident-Keeps h)))))

loop-Bounded :
    (mode : Mode) (opts : List String) (s : WsTangoConn)
    → Bounded s
    → Bounded (init_options mode opts s)
unfolding init_options
loop-Bounded mode [] s h = h
loop-Bounded mode (opt ∷ opts) s h =
    loop-Bounded mode opts (init_option mode opt s) (init_option-Bounded mode opt s h)

-- Whatever the options of the device say, the settings that the connection starts with are within
-- their bounds: at most 65535 connections and a buffer of 1 to 10000 kilobytes; and when the
-- connection authenticates by `PERMISSION_WWW`, `UserControl` does so too.
pub init_options-Bounded :
    (mode : Mode) (auth_ds : String) (opts : List String)
    → Bounded (init_options mode opts (ws_tango_conn auth_ds))
unfolding ws_tango_conn user_control
init_options-Bounded mode auth_ds opts =
    loop-Bounded mode opts (ws_tango_conn auth_ds) (omega arith, omega arith, omega arith, refl)

-- Whatever the options, the limit that `send` and `send_all` compare with the amount of buffered
-- bytes is the setting in bytes: it does not overflow, and the default of 1000 kilobytes for a
-- setting out of its bounds is never used.
pub max_buff_size-init_options :
    (mode : Mode) (auth_ds : String) (opts : List String)
    → max_buff_size (init_options mode opts (ws_tango_conn auth_ds))
      ≡ (init_options mode opts (ws_tango_conn auth_ds)).max_buffer_size * 1024
unfolding max_buff_size
max_buff_size-init_options mode auth_ds opts =
    let h = init_options-Bounded mode auth_ds opts in ground arith
