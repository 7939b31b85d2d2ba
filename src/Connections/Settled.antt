-- ===== src/Connections/Settled.antt =====
-- src/wstangoproc_common/WSThread.cpp, `checkActions`: the loop over the active connections ends
-- when Tango's answers come in.
use web_socket_ds.Base.{
  ◌≡◌, refl, ℕ, zero, suc, ◌≤◌, ◌<◌, ◌-◌, String, true, false, List, Option, none, some, is_nil,
  nat_beq, arith, Bool-cases, inl, inr,
}
use web_socket_ds.Base.Dict.{nat_eq}
use web_socket_ds.Session.Options.{WsTangoConn}
use web_socket_ds.Connections.{TaskInfo, WsThread, Server, CloseCode, TangoConn}
use web_socket_ds.Connections.Checking.{Pass, pass_each, end_pass, for_check_actions, check_actions}
use web_socket_ds.Connections.Active.{Tracks}
use web_socket_ds.Connections.Collecting.{Returns, for_check_actions-Returns}
use web_socket_ds.Connections.LastPass.{pass_at_end}
use web_socket_ds.Connections.Tasks.{is_waiting}
use web_socket_ds.Connections.Time.{pass_each_left}

-- The loop ended: nobody is active, and the connections are those of `handles`.
unfoldable pub Idle : List ℕ → Option WsThread → Type 0
Idle handles o =
    (st : WsThread) × ((o ≡ some st)
      × ((is_nil st.m_active_connections ≡ true) × Tracks handles st))

end_pass_world : {W : Type 0} (st : WsThread) (o : Option Pass) (w : W) → (end_pass st (o, w)).1 ≡ w
unfolding end_pass
end_pass_world st none w = refl
end_pass_world st (some p) w = refl

ne_zero : (n : ℕ) → nat_beq n 0 ≡ false → 0 < n
ne_zero n h = ground arith

stays :
    {Tree W : Type 0} (io : Server W) (s : WsTangoConn) (tc : TangoConn Tree W) (sleep : W → W)
    (fuel : ℕ) (st : WsThread) (w : W)
    → is_nil st.m_active_connections ≡ true
    → check_actions io s tc sleep fuel st w ≡ (some st, w)
unfolding check_actions
stays io s tc sleep zero st w idle = refl
stays io s tc sleep (suc fuel) st w idle = simp (idle, check_actions) refl

module _ {Tree W : Type 0} (io : Server W) (s : WsTangoConn) (tc : TangoConn Tree W) (left : W → ℕ)
    (sending : (h : ℕ) (msg : String) (w : W) → left (io.send_text h msg w).1 ≤ left w)
    (closing : (h : ℕ) (code : CloseCode) (why : String) (w : W)
      → left (io.close h code why w) ≤ left w)
    (checking : (t : ℕ × TaskInfo) (w : W) → left (tc.check_response t w).1 ≤ left w)
    (in_time : (t : ℕ × TaskInfo) (w : W)
      → left w ≡ 0
      → is_waiting (tc.check_response t w).0 ≡ false)
    (sleep : W → W) (sleeping : (w : W) → left (sleep w) ≤ left w - 1) where
  next_pass :
      (handles : List ℕ) (st st' : WsThread) (w : W) (fuel : ℕ)
      → (for_check_actions io s tc st w).0 ≡ some st'
      → is_nil st.m_active_connections ≡ false
      → check_actions io s tc sleep (suc fuel) st w
        ≡ check_actions io s tc sleep fuel st' (sleep (for_check_actions io s tc st w).1)
  unfolding check_actions
  next_pass handles st st' w fuel done busy = simp (busy, done, check_actions) refl

  pass_left : (st : WsThread) (w : W) → left (for_check_actions io s tc st w).1 ≤ left w
  unfolding for_check_actions
  pass_left st w =
      let r = pass_each io s tc st.m_active_connections st.m_connections w in
      rw (end_pass_world st r.0 r.1) (
        pass_each_left io s tc left sending closing checking in_time st.m_active_connections
          st.m_connections w)

  -- Where an answer of Tango comes within `left w` more passes, with the time that sending,
  -- closing and checking take counted in, and the connections that are active are open: the loop
  -- of `checkActions` ends within that many passes and one more, follows no null pointer, and
  -- leaves no connection active and every connection open.
  pub check_actions-Idle :
      (handles : List ℕ) (fuel : ℕ) (st : WsThread) (w : W)
      → Tracks handles st
      → left w < fuel
      → Idle handles (check_actions io s tc sleep fuel st w).0
  unfolding Idle Returns
  check_actions-Idle handles zero st w good short = ground arith
  check_actions-Idle handles (suc fuel) st w good short =
      elim (Bool-cases (is_nil st.m_active_connections)) [
        | inl idle ↦ rw (stays io s tc sleep (suc fuel) st w idle) (st, (refl, (idle, good)))
        | inr busy ↦
            let (st', (done, good')) = for_check_actions-Returns io s tc handles st w good in
            let w' = (for_check_actions io s tc st w).1 in
            rw (next_pass handles st st' w fuel done busy) (elim (Bool-cases (nat_beq (left w) 0)) [
              | inl up ↦
                  let idle =
                    pass_at_end io s tc left sending closing checking in_time st st' w
                      (ground arith) done in
                  rw (stays io s tc sleep fuel st' (sleep w') idle) (st', (refl, (idle, good')))
              | inr more ↦
                  check_actions-Idle handles fuel st' (sleep w') good'
                    (omega (arith, sleeping w', pass_left st w, ne_zero (left w) more))
            ])
      ]
