-- ===== src/Connections/LastPass.antt =====
-- src/wstangoproc_common/WSThread.cpp: a pass of `_forCheckActions` when Tango's answers have had
-- their time.
use web_socket_ds.Base.{
  ◌≡◌, refl, sym, ◌∙◌, ap, ℕ, ◌≤◌, String, Bool, true, false, not, List, [], ◌∷◌, Option, none,
  some, ◌&&◌, ◌||◌, if◌then◌else◌, is_some, is_nil, get_or, nat_beq, arith, Option-cases,
  Bool-cases, inl, inr, ◌⊎◌,
}
use web_socket_ds.Base.Dict.{Dict, lookup, assign, erase, nat_eq, lookup-erase}
use web_socket_ds.Session.Options.{WsTangoConn}
use web_socket_ds.Connections.{
  TaskInfo, Connection, WsThread, Server, CloseCode, TangoConn, member, close_connections,
  delete_from_active,
}
use web_socket_ds.Connections.Checking.{
  Pass, check_task, check_each, erase_tasks, after_each, check_requests, pass_each, end_pass,
  for_check_actions,
}
use web_socket_ds.Connections.Tasks.{is_waiting, ids_of, check_each_cons, combined}
use web_socket_ds.Connections.Active.{member-without}
use web_socket_ds.Connections.Collecting.{noted, pass_each_missing, pass_each_found}
use web_socket_ds.Connections.Time.{
  is_kept, check_requests_left, check_task_at_end, check_task_left,
}

all_gone :
    (goes : Option Bool) (id : ℕ) (o : Option (List ℕ)) (ids : List ℕ)
    → is_kept goes ≡ false
    → combined goes id o ≡ some ids
    → (ids' : List ℕ) × ((o ≡ some ids') × (ids ≡ id ∷ ids'))
all_gone none id o ids gone h = ground arith
all_gone (some g) id none ids gone h = ground arith
all_gone (some true) id (some ids') ids gone h = (ids', (refl, ground arith))
all_gone (some false) id (some ids') ids gone h = ground arith

in_lists : ℕ → Pass → Bool
in_lists k p = member k p.del_active_conn || member k p.del_conn

nobody : (k : ℕ) (b : Bool) → member k [] ≡ true → b ≡ true
unfolding member
nobody k b known = ground arith

first_or_later :
    (k h : ℕ) (hs : List ℕ) → member k (h ∷ hs) ≡ true → (nat_beq h k ≡ true) ⊎ (member k hs ≡ true)
unfolding member
first_or_later k h hs known = elim (Bool-cases (nat_beq h k)) [
  | inl same ↦ inl same
  | inr apart ↦ inr (ground arith)
]

noted_kept :
    (k h : ℕ) (out : Option Bool) (o : Option Pass) (p : Pass)
    → is_kept out ≡ false
    → noted h out o ≡ some p
    → (q : Pass) × ((o ≡ some q) × (in_lists k p ≡ (nat_beq h k || in_lists k q)))
unfolding in_lists member
noted_kept k h out none p at_end h' = ground arith
noted_kept k h none (some q) p at_end h' =
    (q, (refl, rw (sym (ap (λ (o : Option Pass). get_or o p) h')) (ground arith)))
noted_kept k h (some true) (some q) p at_end h' =
    (q, (refl, rw (sym (ap (λ (o : Option Pass). get_or o p) h')) (ground arith)))
noted_kept k h (some false) (some q) p at_end h' = ground arith

lookup-erase_tasks :
    (k : ℕ) (ids : List ℕ) (ts : Dict ℕ TaskInfo)
    → lookup k (erase_tasks ids ts) ≡ (if member k ids then none else lookup k ts)
unfolding erase_tasks member
lookup-erase_tasks k [] ts = refl
lookup-erase_tasks k (id ∷ ids) ts =
    ground (arith, lookup-erase_tasks k ids (erase id ts), lookup-erase id k ts)

member-ids : (k : ℕ) (ts : Dict ℕ TaskInfo) → member k (ids_of ts) ≡ is_some (lookup k ts)
unfolding lookup ids_of member
member-ids k [] = refl
member-ids k ((j, t) ∷ ts) = ground (arith, member-ids k ts)

-- A dictionary that has no value for any key is empty.
nil_of_lookups : (ts : Dict ℕ TaskInfo) → ((k : ℕ) → lookup k ts ≡ none) → is_nil ts ≡ true
unfolding lookup
nil_of_lookups [] absent = refl
nil_of_lookups ((k, t) ∷ ts) absent = ground (arith, absent k, nat_eq.beq_iff k k)

erase_all : (ts : Dict ℕ TaskInfo) → is_nil (erase_tasks (ids_of ts) ts) ≡ true
erase_all ts =
    nil_of_lookups (erase_tasks (ids_of ts) ts)
      (λ k. ground (arith, lookup-erase_tasks k (ids_of ts) ts, member-ids k ts))

nil_of_members : (ks : List ℕ) → ((k : ℕ) → member k ks ≡ false) → is_nil ks ≡ true
unfolding member
nil_of_members [] absent = refl
nil_of_members (k ∷ ks) absent = ground (arith, absent k, nat_eq.beq_iff k k)

member-delete_from_active :
    (k h : ℕ) (st : WsThread)
    → member k (delete_from_active h st).m_active_connections
      ≡ (member k st.m_active_connections && not (nat_beq h k))
unfolding delete_from_active
member-delete_from_active k h st =
    ground (arith, member-without k h st.m_active_connections, nat_eq.beq_iff h k)

member-close_connections :
    (k : ℕ) (hs : List ℕ) (st : WsThread)
    → member k (close_connections hs st).m_active_connections
      ≡ (member k st.m_active_connections && not (member k hs))
unfolding close_connections member
member-close_connections k [] st = ground arith
member-close_connections k (h ∷ hs) st = ground (
  arith,
  member-close_connections k hs (delete_from_active h st),
  member-delete_from_active k h st,
)

abbrev ended : WsThread → Pass → WsThread
ended st p =
    close_connections p.del_conn
      (close_connections p.del_active_conn (record st { m_connections = p.connections }))

end_pass_found :
    {W : Type 0} (st : WsThread) (o : Option Pass) (w : W) (st' : WsThread)
    → (end_pass st (o, w)).0 ≡ some st'
    → (p : Pass) × ((o ≡ some p) × (st' ≡ ended st p))
unfolding end_pass
end_pass_found st none w st' done = ground arith
end_pass_found st (some p) w st' done =
    (p, (refl, sym (ap (λ (o : Option WsThread). get_or o st') done)))

listed_gone :
    (k : ℕ) (st : WsThread) (p : Pass)
    → (member k st.m_active_connections ≡ true → in_lists k p ≡ true)
    → member k (ended st p).m_active_connections ≡ false
unfolding in_lists
listed_gone k st p listed = ground (
  arith,
  member-close_connections k p.del_conn
      (close_connections p.del_active_conn (record st { m_connections = p.connections })),
  member-close_connections k p.del_active_conn (record st { m_connections = p.connections }),
)

module _ {Tree W : Type 0} (io : Server W) (s : WsTangoConn) (tc : TangoConn Tree W) (left : W → ℕ)
    (sending : (h : ℕ) (msg : String) (w : W) → left (io.send_text h msg w).1 ≤ left w)
    (closing : (h : ℕ) (code : CloseCode) (why : String) (w : W)
      → left (io.close h code why w) ≤ left w)
    (checking : (t : ℕ × TaskInfo) (w : W) → left (tc.check_response t w).1 ≤ left w)
    (in_time : (t : ℕ × TaskInfo) (w : W)
      → left w ≡ 0
      → is_waiting (tc.check_response t w).0 ≡ false) where
  still : (h id : ℕ) (t : TaskInfo) (w : W) → left w ≡ 0 → left (check_task io s tc h id t w).1 ≡ 0
  still h id t w up =
      omega (arith, check_task_left io s tc left sending closing checking in_time h id t w)

  check_each_at_end :
      (h : ℕ) (ts : Dict ℕ TaskInfo) (w : W) (ids : List ℕ)
      → left w ≡ 0
      → (check_each io s tc h ts w).0 ≡ some ids
      → ids ≡ ids_of ts
  unfolding ids_of check_each
  check_each_at_end h [] w ids up done = ground arith
  check_each_at_end h ((id, t) ∷ ts) w ids up done =
      let r = check_task io s tc h id t w in
      let (ids', (later, is_ids)) =
        all_gone r.0 id (check_each io s tc h ts r.1).0 ids
          (check_task_at_end io s tc left sending closing checking in_time h id t w up)
          (sym (check_each_cons io s tc h id t ts w) ∙ done) in
      is_ids
      ∙ ap (λ (l : List ℕ). id ∷ l) (check_each_at_end h ts r.1 ids' (still h id t w up) later)

  after_each_at_end :
      (ts : Dict ℕ TaskInfo) (o : Option (List ℕ)) (w : W)
      → ((ids : List ℕ) → o ≡ some ids → ids ≡ ids_of ts)
      → is_kept (after_each ts (o, w)).0 ≡ false
  unfolding after_each
  after_each_at_end ts none w same = refl
  after_each_at_end ts (some ids) w same = rw (same ids refl, erase_all ts) refl

  check_requests_at_end :
      (h : ℕ) (ts : Dict ℕ TaskInfo) (w : W)
      → left w ≡ 0
      → is_kept (check_requests io s tc h ts w).0 ≡ false
  unfolding check_requests
  check_requests_at_end h [] w up = refl
  check_requests_at_end h (t ∷ ts) w up =
      let r = check_each io s tc h (t ∷ ts) w in
      after_each_at_end (t ∷ ts) r.0 r.1 (λ ids done. check_each_at_end h (t ∷ ts) w ids up done)

  quiet :
      (h : ℕ) (ts : Dict ℕ TaskInfo) (w : W)
      → left w ≡ 0
      → left (check_requests io s tc h ts w).1.1 ≡ 0
  quiet h ts w up =
      omega (arith, check_requests_left io s tc left sending closing checking in_time h ts w)

  -- All connections that a pass goes over are in one of its two lists.
  pass_each_at_end :
      (hs : List ℕ) (cs : Dict ℕ Connection) (w : W) (p : Pass) (k : ℕ)
      → left w ≡ 0
      → (pass_each io s tc hs cs w).0 ≡ some p
      → member k hs ≡ true
      → in_lists k p ≡ true
  unfolding pass_each
  pass_each_at_end [] cs w p k up done known = nobody k (in_lists k p) known
  pass_each_at_end (h ∷ hs) cs w p k up done known = elim (Option-cases (lookup h cs)) [
    | inl missing ↦ ground (arith, pass_each_missing io s tc h hs cs w)
    | inr (c, is_c) ↦
        let (gone, (ts, w')) = check_requests io s tc h c.id_command_info w in
        let cs' = assign h (record c { id_command_info = ts }) cs in
        let (q, (inner, listed)) =
          noted_kept k h gone (pass_each io s tc hs cs' w').0 p
            (check_requests_at_end h c.id_command_info w up)
            (sym (pass_each_found io s tc h hs c cs w is_c) ∙ done) in
        elim (first_or_later k h hs known) [
          | inl first ↦ listed ∙ ground arith
          | inr later ↦
              listed
              ∙ ground (
                arith,
                pass_each_at_end hs cs' w' q k (quiet h c.id_command_info w up) inner later,
              )
        ]
  ]

  -- A pass when time is up leaves no connection active.
  pub pass_at_end :
      (st st' : WsThread) (w : W)
      → left w ≡ 0
      → (for_check_actions io s tc st w).0 ≡ some st'
      → is_nil st'.m_active_connections ≡ true
  unfolding for_check_actions
  pass_at_end st st' w up done =
      let r = pass_each io s tc st.m_active_connections st.m_connections w in
      let (p, (is_p, is_st')) = end_pass_found st r.0 r.1 st' done in
      nil_of_members st'.m_active_connections (λ k. rw is_st' (
        listed_gone k st p
          (λ known. pass_each_at_end st.m_active_connections st.m_connections w p k up is_p known)))
