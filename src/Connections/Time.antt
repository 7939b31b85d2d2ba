-- ===== src/Connections/Time.antt =====
-- src/wstangoproc_common/WSThread.cpp: the time that Tango's answers can still take, through a pass
-- of `_forCheckActions`.
use web_socket_ds.Base.{
  if_holds, ltb, ◌≡◌, refl, ℕ, ◌≤◌, String, Bool, true, false, List, [], ◌∷◌, Option, none, some,
  arith, Option-cases, inl, inr,
}
use web_socket_ds.Base.Dict.{Dict, lookup, assign, nat_eq}
use web_socket_ds.Session.Options.{WsTangoConn, max_buff_size}
use web_socket_ds.StringProc.Response.{remove_symbols_for_string}
use web_socket_ds.Connections.{
  going_away, internal_endpoint_error, TaskInfo, Connection, Server, Thrown, CloseCode, CheckReply,
  arrived, not_arrived, dev_failed, Buffered, amount, throws, TangoConn,
}
use web_socket_ds.Connections.Sending.{
  Outcome, returned, connection_closed, reason_of, send, with_buffered, after_send,
  close_from_server,
}
use web_socket_ds.Connections.Checking.{
  text_of_reply, with_text, after_answer, check_task, check_each, after_each, check_requests,
  pass_each,
}
use web_socket_ds.Connections.Tasks.{is_waiting, branch}

-- A task that stays.
abbrev pub is_kept : Option Bool → Bool
is_kept (some false) = true
is_kept _ = false

-- `left` is how long Tango's answers can still take: a call of Tango that has not been answered
-- in time ends with a timeout.
module _ {Tree W : Type 0} (io : Server W) (s : WsTangoConn) (tc : TangoConn Tree W) (left : W → ℕ)
    (sending : (h : ℕ) (msg : String) (w : W) → left (io.send_text h msg w).1 ≤ left w)
    (closing : (h : ℕ) (code : CloseCode) (why : String) (w : W)
      → left (io.close h code why w) ≤ left w)
    (checking : (t : ℕ × TaskInfo) (w : W) → left (tc.check_response t w).1 ≤ left w)
    (in_time : (t : ℕ × TaskInfo) (w : W)
      → left w ≡ 0
      → is_waiting (tc.check_response t w).0 ≡ false) where
  after_send_left : (h : ℕ) (o : Option Thrown) (w : W) → left (after_send io s h (o, w)).1 ≤ left w
  unfolding after_send close_from_server
  after_send_left h none w = omega arith
  after_send_left h (some t) w = closing h internal_endpoint_error (reason_of t) w

  with_buffered_left :
      (h : ℕ) (msg : String) (b : Buffered) (w : W) → left (with_buffered io s h msg b w).1 ≤ left w
  unfolding with_buffered close_from_server
  with_buffered_left h msg (throws t) w = closing h internal_endpoint_error (reason_of t) w
  with_buffered_left h msg (amount n) w =
      let r = io.send_text h (remove_symbols_for_string msg) w in
      if_holds (λ (o : Outcome × W). left o.1 ≤ left w) (ltb n (max_buff_size s)) _ _
        (λ room.
          omega (arith, after_send_left h r.0 r.1, sending h (remove_symbols_for_string msg) w))
        (λ full. closing h going_away "buffer overloaded" w)

  send_left : (h : ℕ) (msg : String) (w : W) → left (send io s h msg w).1 ≤ left w
  unfolding send
  send_left h msg w =
      if_holds (λ (o : Outcome × W). left o.1 ≤ left w) (io.expired h w) _ _ (λ gone. omega arith)
        (λ there. with_buffered_left h msg (io.buffered_amount h w) w)

  after_answer_left : (o : Outcome) (w : W) → left (after_answer io s tc (o, w)).1 ≤ left w
  unfolding after_answer
  after_answer_left returned w = omega arith
  after_answer_left connection_closed w = omega arith

  with_text_left : (h : ℕ) (o : Option String) (w : W) → left (with_text io s tc h o w).1 ≤ left w
  unfolding with_text
  with_text_left h none w = omega arith
  with_text_left h (some text) w =
      let r = send io s h text w in omega (arith, after_answer_left r.0 r.1, send_left h text w)

  pub check_task_left :
      (h id : ℕ) (t : TaskInfo) (w : W) → left (check_task io s tc h id t w).1 ≤ left w
  unfolding check_task
  check_task_left h id t w =
      let r = tc.check_response (id, t) w in
      omega (arith, checking (id, t) w, with_text_left h (text_of_reply t r.0) r.1)

  branch_left :
      (h id : ℕ) (ts : Dict ℕ TaskInfo) (goes : Option Bool) (w : W)
      → left (check_each io s tc h ts w).1 ≤ left w
      → left (branch io s tc h id ts goes w).1 ≤ left w
  branch_left h id ts none w less = omega arith
  branch_left h id ts (some g) w less = less

  check_each_left :
      (h : ℕ) (ts : Dict ℕ TaskInfo) (w : W) → left (check_each io s tc h ts w).1 ≤ left w
  unfolding check_each
  check_each_left h [] w = omega arith
  check_each_left h ((id, t) ∷ ts) w =
      let r = check_task io s tc h id t w in
      omega
        (arith, check_task_left h id t w, branch_left h id ts r.0 r.1 (check_each_left h ts r.1))

  after_each_left :
      (ts : Dict ℕ TaskInfo) (o : Option (List ℕ)) (w : W)
      → left (after_each ts (o, w)).1.1 ≤ left w
  unfolding after_each
  after_each_left ts none w = omega arith
  after_each_left ts (some ids) w = omega arith

  pub check_requests_left :
      (h : ℕ) (ts : Dict ℕ TaskInfo) (w : W) → left (check_requests io s tc h ts w).1.1 ≤ left w
  unfolding check_requests
  check_requests_left h [] w = omega arith
  check_requests_left h (t ∷ ts) w =
      let r = check_each io s tc h (t ∷ ts) w in
      omega (arith, check_each_left h (t ∷ ts) w, after_each_left (t ∷ ts) r.0 r.1)

  pub pass_each_left :
      (hs : List ℕ) (cs : Dict ℕ Connection) (w : W) → left (pass_each io s tc hs cs w).1 ≤ left w
  unfolding pass_each
  pass_each_left [] cs w = omega arith
  pass_each_left (h ∷ hs) cs w = elim (Option-cases (lookup h cs)) [
    | inl missing ↦ rw (missing, pass_each) (omega arith)
    | inr (c, is_c) ↦
        let (gone, (ts, w')) = check_requests io s tc h c.id_command_info w in
        rw (is_c, pass_each)
          (omega (
            arith,
            check_requests_left h c.id_command_info w,
            pass_each_left hs (assign h (record c { id_command_info = ts }) cs) w',
          ))
  ]

  after_answer_kept : (o : Outcome) (w : W) → is_kept (after_answer io s tc (o, w)).0 ≡ false
  unfolding after_answer
  after_answer_kept returned w = refl
  after_answer_kept connection_closed w = refl

  with_text-some :
      (h : ℕ) (text : String) (w : W) → is_kept (with_text io s tc h (some text) w).0 ≡ false
  unfolding with_text
  with_text-some h text w = let r = send io s h text w in after_answer_kept r.0 r.1

  with_text_kept :
      (h : ℕ) (t : TaskInfo) (reply : CheckReply) (w : W)
      → is_waiting reply ≡ false
      → is_kept (with_text io s tc h (text_of_reply t reply) w).0 ≡ false
  unfolding text_of_reply
  with_text_kept h t (arrived resp) w here = with_text-some h resp w
  with_text_kept h t not_arrived w here = ground arith
  with_text_kept h t (dev_failed errs) w here = with_text-some h _ w

  -- Time is up.
  pub check_task_at_end :
      (h id : ℕ) (t : TaskInfo) (w : W)
      → left w ≡ 0
      → is_kept (check_task io s tc h id t w).0 ≡ false
  unfolding check_task
  check_task_at_end h id t w up =
      let r = tc.check_response (id, t) w in with_text_kept h t r.0 r.1 (in_time (id, t) w up)
