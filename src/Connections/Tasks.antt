-- ===== src/Connections/Tasks.antt =====
-- src/wstangoproc_common/WSThread.cpp: which requests a connection waits for, behind the insertion of
-- tasks and behind `_checkRequests`.
use web_socket_ds.Base.{
  ◌≡◌, String, refl, sym, ◌∙◌, ℕ, Bool, true, false, not, List, [], ◌∷◌, Option, none, some, ◌&&◌,
  if◌then◌else◌, is_some, is_nil, arith,
}
use web_socket_ds.Base.Dict.{Dict, lookup, lookup-insert_new_first, erase, insert_new, nat_eq}
use web_socket_ds.Session.Options.{WsTangoConn}
use web_socket_ds.Connections.{
  TaskInfo, Server, TangoConn, CheckReply, arrived, not_arrived, dev_failed, member,
}
use web_socket_ds.Connections.Sending.{Outcome, returned, connection_closed, send}
use web_socket_ds.Connections.Opening.{insert_tasks}
use web_socket_ds.Connections.Checking.{
  text_of_reply, after_answer, with_text, check_task, check_each, add_if, erase_tasks, after_each,
  check_requests,
}

unfoldable pub ids_of : Dict ℕ TaskInfo → List ℕ
ids_of [] = []
ids_of ((id, t) ∷ ts) = id ∷ ids_of ts

-- No id stands twice, as in every `unordered_map`.
unfoldable pub distinct : List ℕ → Bool
distinct [] = true
distinct (id ∷ ids) = not (member id ids) && distinct ids

-- A connection waits for the tasks it had and for the new ones, except that a new task whose id
-- is in use is dropped.
pub lookup-insert_tasks :
    (id : ℕ) (tasks ts : Dict ℕ TaskInfo)
    → lookup id (insert_tasks tasks ts)
      ≡ (if is_some (lookup id ts) then lookup id ts else lookup id tasks)
unfolding lookup insert_tasks
lookup-insert_tasks id [] ts = ground arith
lookup-insert_tasks id ((k, t) ∷ tasks) ts =
    ground
      (arith, lookup-insert_tasks id tasks (insert_new k t ts), lookup-insert_new_first k id t ts)

abbrev pub is_waiting : CheckReply → Bool
is_waiting not_arrived = true
is_waiting _ = false

abbrev pub is_gone : Option Bool → Bool
is_gone none = false
is_gone (some g) = g

erase_absent : (id : ℕ) (ts : Dict ℕ TaskInfo) → member id (ids_of ts) ≡ false → erase id ts ≡ ts
unfolding erase ids_of member
erase_absent id [] absent = refl
erase_absent id ((k, t) ∷ ts) absent = ground (arith, erase_absent id ts)

erase_tasks_first :
    (ids : List ℕ) (id : ℕ) (t : TaskInfo) (ts : Dict ℕ TaskInfo)
    → member id ids ≡ false
    → erase_tasks ids ((id, t) ∷ ts) ≡ (id, t) ∷ erase_tasks ids ts
unfolding erase_tasks erase member
erase_tasks_first [] id t ts absent = refl
erase_tasks_first (k ∷ ids) id t ts absent =
    ground
      (arith, erase_tasks_first ids id t (erase k ts), nat_eq.beq_iff k id, nat_eq.beq_iff id k)

distinct_cons :
    (id : ℕ) (ids : List ℕ)
    → distinct (id ∷ ids) ≡ true
    → (member id ids ≡ false) × (distinct ids ≡ true)
unfolding distinct
distinct_cons id ids apart = ground arith

erase_none : (ids : List ℕ) → erase_tasks ids [] ≡ []
unfolding erase_tasks erase
erase_none [] = refl
erase_none (id ∷ ids) = erase_none ids

erased :
    (waits : Bool) (goes : Option Bool) (id : ℕ) (t : TaskInfo) (ids : List ℕ)
    (ts rest : Dict ℕ TaskInfo)
    → member id ids ≡ false
    → member id (ids_of ts) ≡ false
    → erase_tasks ids ts ≡ rest
    → is_gone goes ≡ not waits
    → erase_tasks (if is_gone goes then id ∷ ids else ids) ((id, t) ∷ ts)
      ≡ (if waits then (id, t) ∷ rest else rest)
unfolding erase_tasks erase
erased waits goes id t ids ts rest absent new same gone =
    ground (arith, erase_tasks_first ids id t ts, erase_absent id ts, nat_eq.beq_iff id id)

abbrev pub combined : Option Bool → ℕ → Option (List ℕ) → Option (List ℕ)
combined none id o = none
combined (some g) id o = add_if g id o

pub uncombined :
    (goes : Option Bool) (id : ℕ) (o : Option (List ℕ)) (ids : List ℕ)
    → combined goes id o ≡ some ids
    → (ids' : List ℕ) × ((o ≡ some ids') × (ids ≡ (if is_gone goes then id ∷ ids' else ids')))
uncombined none id o ids h = ground arith
uncombined (some g) id none ids h = ground arith
uncombined (some g) id (some ids') ids h = (ids', (refl, ground arith))

module _ {Tree W : Type 0} (io : Server W) (s : WsTangoConn) (tc : TangoConn Tree W) where
  -- The tasks without an answer, where each is asked for when those before it were dealt with.
  unfoldable pub remaining : ℕ → Dict ℕ TaskInfo → W → Dict ℕ TaskInfo
  remaining hdl [] w = []
  remaining hdl ((id, t) ∷ ts) w =
      let later = remaining hdl ts (check_task io s tc hdl id t w).1 in
      if is_waiting (tc.check_response (id, t) w).0 then (id, t) ∷ later else later

  abbrev pub branch : ℕ → ℕ → Dict ℕ TaskInfo → Option Bool → W → Option (List ℕ) × W
  branch hdl id ts goes w = elim goes [
    | none ↦ (none, w)
    | some g ↦ let (ids, w') = check_each io s tc hdl ts w in (add_if g id ids, w')
  ]

  combine :
      (hdl id : ℕ) (ts : Dict ℕ TaskInfo) (r : Option Bool × W)
      → (branch hdl id ts r.0 r.1).0 ≡ combined r.0 id (check_each io s tc hdl ts r.1).0
  combine hdl id ts (none, w) = refl
  combine hdl id ts (some g, w) = refl

  pub check_each_cons :
      (hdl id : ℕ) (t : TaskInfo) (ts : Dict ℕ TaskInfo) (w : W)
      → let r = check_task io s tc hdl id t w in
        (check_each io s tc hdl ((id, t) ∷ ts) w).0
        ≡ combined r.0 id (check_each io s tc hdl ts r.1).0
  unfolding check_each
  check_each_cons hdl id t ts w = combine hdl id ts (check_task io s tc hdl id t w)

  after_answer_gone :
      (o : Outcome) (v : W) (id : ℕ) (later : Option (List ℕ)) (ids : List ℕ)
      → combined (after_answer io s tc (o, v)).0 id later ≡ some ids
      → is_gone (after_answer io s tc (o, v)).0 ≡ true
  unfolding after_answer
  after_answer_gone returned v id later ids h = refl
  after_answer_gone connection_closed v id later ids h = ground arith

  sent_gone :
      (hdl : ℕ) (msg : String) (v : W) (id : ℕ) (later : Option (List ℕ)) (ids : List ℕ)
      → combined (with_text io s tc hdl (some msg) v).0 id later ≡ some ids
      → is_gone (with_text io s tc hdl (some msg) v).0 ≡ true
  unfolding with_text
  sent_gone hdl msg v id later ids h =
      let r = send io s hdl msg v in after_answer_gone r.0 r.1 id later ids h

  waiting_stays : (hdl : ℕ) (v : W) → is_gone (with_text io s tc hdl none v).0 ≡ false
  unfolding with_text
  waiting_stays hdl v = refl

  reply_gone :
      (hdl id : ℕ) (t : TaskInfo) (reply : CheckReply) (v : W) (later : Option (List ℕ))
      (ids : List ℕ)
      → combined (with_text io s tc hdl (text_of_reply t reply) v).0 id later ≡ some ids
      → is_gone (with_text io s tc hdl (text_of_reply t reply) v).0 ≡ not (is_waiting reply)
  unfolding text_of_reply
  reply_gone hdl id t (arrived resp) v later ids h = sent_gone hdl resp v id later ids h
  reply_gone hdl id t not_arrived v later ids h = waiting_stays hdl v
  reply_gone hdl id t (dev_failed errs) v later ids h = sent_gone hdl _ v id later ids h

  check_task_gone :
      (hdl id : ℕ) (t : TaskInfo) (w : W) (later : Option (List ℕ)) (ids : List ℕ)
      → combined (check_task io s tc hdl id t w).0 id later ≡ some ids
      → is_gone (check_task io s tc hdl id t w).0 ≡ not (is_waiting (tc.check_response (id, t) w).0)
  unfolding check_task
  check_task_gone hdl id t w later ids h =
      let r = tc.check_response (id, t) w in reply_gone hdl id t r.0 r.1 later ids h

  -- The tasks that go are of those that were there.
  check_each_ids :
      (hdl : ℕ) (ts : Dict ℕ TaskInfo) (w : W) (ids : List ℕ) (k : ℕ)
      → (check_each io s tc hdl ts w).0 ≡ some ids
      → member k (ids_of ts) ≡ false
      → member k ids ≡ false
  unfolding ids_of member check_each
  check_each_ids hdl [] w ids k done absent = ground arith
  check_each_ids hdl ((id, t) ∷ ts) w ids k done absent =
      let r = check_task io s tc hdl id t w in
      let (ids', (later, is_ids)) =
        uncombined r.0 id (check_each io s tc hdl ts r.1).0 ids
          (sym (check_each_cons hdl id t ts w) ∙ done) in
      ground (arith, check_each_ids hdl ts r.1 ids' k later)

  check_each-remaining :
      (hdl : ℕ) (ts : Dict ℕ TaskInfo) (w : W) (ids : List ℕ)
      → (check_each io s tc hdl ts w).0 ≡ some ids
      → distinct (ids_of ts) ≡ true
      → erase_tasks ids ts ≡ remaining hdl ts w
  unfolding ids_of distinct remaining check_each
  check_each-remaining hdl [] w ids done apart = simp (erase_none ids) refl
  check_each-remaining hdl ((id, t) ∷ ts) w ids done apart =
      let r = check_task io s tc hdl id t w in
      let (ids', (later, is_ids)) =
        uncombined r.0 id (check_each io s tc hdl ts r.1).0 ids
          (sym (check_each_cons hdl id t ts w) ∙ done) in
      let (new, apart') = distinct_cons id (ids_of ts) apart in
      let absent = check_each_ids hdl ts r.1 ids' id later new in
      rw is_ids (
        erased (is_waiting (tc.check_response (id, t) w).0) r.0 id t ids' ts (remaining hdl ts r.1)
          absent new (check_each-remaining hdl ts r.1 ids' later apart')
          (check_task_gone hdl id t w (check_each io s tc hdl ts r.1).0 ids
            (sym (check_each_cons hdl id t ts w) ∙ done)))

  Settles : ℕ → Dict ℕ TaskInfo → W → Option Bool × (Dict ℕ TaskInfo × W) → Type 0
  Settles hdl ts w r =
      (r.1.0 ≡ (if is_some r.0 then remaining hdl ts w else ts))
      × (r.0 ≡ (if is_some r.0 then some (is_nil r.1.0) else none))

  after_each-remaining :
      (hdl : ℕ) (ts : Dict ℕ TaskInfo) (w : W) (o : Option (List ℕ)) (v : W)
      → distinct (ids_of ts) ≡ true
      → (check_each io s tc hdl ts w).0 ≡ o
      → Settles hdl ts w (after_each ts (o, v))
  unfolding after_each Settles
  after_each-remaining hdl ts w none v apart done = (refl, refl)
  after_each-remaining hdl ts w (some ids) v apart done =
      (check_each-remaining hdl ts w ids done apart, refl)

  -- A round over a connection's tasks keeps those without an answer, in their order, and says
  -- whether none is left; but when a send closes the connection all tasks stay, those that were
  -- answered before it in the same round too.
  pub check_requests-remaining :
      (hdl : ℕ) (ts : Dict ℕ TaskInfo) (w : W)
      → distinct (ids_of ts) ≡ true
      → let r = check_requests io s tc hdl ts w in
        (r.1.0 ≡ (if is_some r.0 then remaining hdl ts w else ts))
        × (r.0 ≡ (if is_some r.0 then some (is_nil r.1.0) else none))
  unfolding check_requests Settles remaining
  check_requests-remaining hdl [] w apart = (refl, refl)
  check_requests-remaining hdl (t ∷ ts) w apart =
      let r = check_each io s tc hdl (t ∷ ts) w in
      after_each-remaining hdl (t ∷ ts) w r.0 r.1 apart refl
