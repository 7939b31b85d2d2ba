-- ===== src/Connections/Collecting.antt =====
-- src/wstangoproc_common/WSThread.cpp: a pass of `_forCheckActions` over connections that are open
-- follows no null pointer, and opens and closes none.
use web_socket_ds.Base.{
  ◌≡◌, refl, ◌∙◌, ℕ, Bool, true, false, List, [], ◌∷◌, Option, none, some, arith, Option-cases, inl,
  inr,
}
use web_socket_ds.Base.Dict.{Dict, lookup, assign, nat_eq}
use web_socket_ds.Session.Options.{WsTangoConn}
use web_socket_ds.Connections.{Connection, WsThread, Server, TangoConn, member, close_connections}
use web_socket_ds.Connections.Checking.{
  Pass, note, check_requests, pass_each, end_pass, for_check_actions,
}
use web_socket_ds.Connections.Active.{
  keys, subset, Tracks, lookup-keys, keys-assign_old, close_connections-Tracks,
}

-- The pass ended, with connections of the same handles.
unfoldable pub Ended : List ℕ → Option Pass → Type 0
Ended handles o = (p : Pass) × ((o ≡ some p) × (keys p.connections ≡ handles))

-- `_forCheckActions` ended, with the same open connections.
unfoldable pub Returns : List ℕ → Option WsThread → Type 0
Returns handles o = (st : WsThread) × ((o ≡ some st) × Tracks handles st)

abbrev pub noted : ℕ → Option Bool → Option Pass → Option Pass
noted h gone o = elim o [ none ↦ none | some q ↦ some (note h gone q) ]

note-Ended :
    (handles : List ℕ) (h : ℕ) (gone : Option Bool) (o : Option Pass)
    → Ended handles o
    → Ended handles (noted h gone o)
unfolding Ended
note-Ended handles h none o (p, (is_p, same)) = rw is_p (note h none p, (refl, same))
note-Ended handles h (some true) o (p, (is_p, same)) = rw is_p (note h (some true) p, (refl, same))
note-Ended handles h (some false) o (p, (is_p, same)) = rw is_p (p, (refl, same))

pub found :
    (h : ℕ) (cs : Dict ℕ Connection)
    → member h (keys cs) ≡ true
    → (c : Connection) × (lookup h cs ≡ some c)
found h cs known = elim (Option-cases (lookup h cs)) [
  | inl missing ↦ ground (arith, lookup-keys h cs)
  | inr (c, is_c) ↦ (c, is_c)
]

subset_head :
    (h : ℕ) (hs ks : List ℕ)
    → subset (h ∷ hs) ks ≡ true
    → (member h ks ≡ true) × (subset hs ks ≡ true)
unfolding subset
subset_head h hs ks sub = ground arith

end_pass-Returns :
    {W : Type 0} (handles : List ℕ) (st : WsThread) (o : Option Pass) (w : W)
    → subset st.m_active_connections handles ≡ true
    → Ended handles o
    → Returns handles (end_pass st (o, w)).0
unfolding Ended Returns end_pass Tracks
end_pass-Returns handles st o w sub (p, (is_p, same)) = rw is_p (
  close_connections p.del_conn
      (close_connections p.del_active_conn (record st { m_connections = p.connections })),
  (
    refl,
    close_connections-Tracks handles p.del_conn
        (close_connections p.del_active_conn (record st { m_connections = p.connections }))
        (close_connections-Tracks handles p.del_active_conn
          (record st { m_connections = p.connections }) (same, sub)),
  ),
)

module _ {Tree W : Type 0} (io : Server W) (s : WsTangoConn) (tc : TangoConn Tree W) where
  pub pass_each_missing :
      (h : ℕ) (hs : List ℕ) (cs : Dict ℕ Connection) (w : W)
      → lookup h cs ≡ none
      → (pass_each io s tc (h ∷ hs) cs w).0 ≡ none
  unfolding pass_each
  pass_each_missing h hs cs w missing = rw (missing, pass_each) refl

  pub pass_each_found :
      (h : ℕ) (hs : List ℕ) (c : Connection) (cs : Dict ℕ Connection) (w : W)
      → lookup h cs ≡ some c
      → let (gone, (ts, w')) = check_requests io s tc h c.id_command_info w in
        (pass_each io s tc (h ∷ hs) cs w).0
        ≡ noted h gone (pass_each io s tc hs (assign h (record c { id_command_info = ts }) cs) w').0
  unfolding pass_each
  pass_each_found h hs c cs w is_c = rw (is_c, pass_each) refl

  pass_each-Ended :
      (handles hs : List ℕ) (cs : Dict ℕ Connection) (w : W)
      → keys cs ≡ handles
      → subset hs handles ≡ true
      → Ended handles (pass_each io s tc hs cs w).0
  unfolding pass_each Ended
  pass_each-Ended handles [] cs w same sub =
      (record { del_active_conn = []; del_conn = []; connections = cs }, (refl, same))
  pass_each-Ended handles (h ∷ hs) cs w same sub =
      let (known, rest) = subset_head h hs handles sub in
      let (c, is_c) = found h cs (rw same known) in
      rw (is_c, pass_each)
        (let (gone, (ts, w')) = check_requests io s tc h c.id_command_info w in
          note-Ended handles h gone
            (pass_each io s tc hs (assign h (record c { id_command_info = ts }) cs) w').0
            (pass_each-Ended handles hs (assign h (record c { id_command_info = ts }) cs) w'
              (keys-assign_old h (record c { id_command_info = ts }) cs (rw same known) ∙ same)
              rest))

  pub for_check_actions-Returns :
      (handles : List ℕ) (st : WsThread) (w : W)
      → Tracks handles st
      → Returns handles (for_check_actions io s tc st w).0
  unfolding for_check_actions Tracks
  for_check_actions-Returns handles st w (same, sub) =
      let r = pass_each io s tc st.m_active_connections st.m_connections w in
      end_pass-Returns handles st r.0 r.1 sub
        (pass_each-Ended handles st.m_active_connections st.m_connections w same sub)
