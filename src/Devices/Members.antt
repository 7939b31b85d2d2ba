-- ===== src/Devices/Members.antt =====
-- src/wstangoproc_common/TangoProcessor.cpp, `processAsyncReq`: every device of a group is accounted
-- for.
use web_socket_ds.Base.{◌≡◌, refl, ℕ, String, Bool, true, false, List, [], ◌∷◌, arith}
use web_socket_ds.Wire.{TypeWsReq, group}
use web_socket_ds.Request.{ParsedInputJson}
use web_socket_ds.Connections.{TaskInfo, Called, gives, fails, escapes}
use web_socket_ds.Devices.{Formats, Asked, got, dev_failed, Devices}
use web_socket_ds.Devices.Made.{
  Made, process_command-Made, process_attr_read-Made, process_attr_write-Made,
}
use web_socket_ds.Devices.Asking.{
  Tasks, push_back, process_async_req, as_member, after_proxy, process_group, join_rest,
  process_command, process_attr_read, process_attr_write,
}

abbrev pub is_async : TypeWsReq → Bool
is_async t = elim t [
  | TypeWsReq.command ↦ true
  | TypeWsReq.attribute_read ↦ true
  | TypeWsReq.attribute_write ↦ true
  | _ ↦ false
]

-- The tasks and the errors are, in the order of the devices, one for each device: its task or its
-- error.
pub data Answered (IsTask : String → TaskInfo → Type 0) (IsError : String → String → Type 0)
    : List String → Tasks → List String → Type 0 where
  nobody : Answered IsTask IsError [] [] []
  by_task :
      {dev : String} {devs : List String} {id : ℕ} {t : TaskInfo} {ts : Tasks} {es : List String}
      → IsTask dev t
      → Answered IsTask IsError devs ts es
      → Answered IsTask IsError (dev ∷ devs) ((id, t) ∷ ts) es
  by_error :
      {dev err : String} {devs : List String} {ts : Tasks} {es : List String}
      → IsError dev err
      → Answered IsTask IsError devs ts es
      → Answered IsTask IsError (dev ∷ devs) ts (err ∷ es)

-- A task of this kind that is for this device, as one of a group.
unfoldable pub IsTaskOf : TypeWsReq → String → TaskInfo → Type 0
IsTaskOf kind dev t =
    (t.type_asynq_req ≡ kind) × ((t.single_or_group ≡ group) × (t.device_for_ws ≡ dev))

module _ {F W Tree : Type 0} (f : Formats F) (d : Devices F W)
    (children : Tree → List (String × String)) (p : ParsedInputJson Tree) where
  -- What asking for this device, and then asking it, comes to in some state of Tango.
  unfoldable pub IsErrorOf : String → String → Type 0
  IsErrorOf dev err =
      (w : W) × ((after_proxy f d children p dev (d.new_proxy dev w)).0 ≡ gives ([], err ∷ []))

  -- The result accounts for these devices, unless an exception has left the loop.
  unfoldable pub Accounted : TypeWsReq → List String → Called (Tasks × List String) → Type 0
  Accounted kind devs (gives (tasks, errs)) = Answered (IsTaskOf kind) IsErrorOf devs tasks errs
  Accounted kind devs (fails what) = ⊥
  Accounted kind devs escapes = Unit

  -- What one device comes to.
  OneOf : TypeWsReq → String → Called (Tasks × List String) → Type 0
  OneOf kind dev (gives ([], [])) = ⊥
  OneOf kind dev (gives ([], err ∷ [])) = Unit
  OneOf kind dev (gives ([], err ∷ e ∷ es)) = ⊥
  OneOf kind dev (gives ((id, t) ∷ [], [])) = IsTaskOf kind dev t
  OneOf kind dev (gives ((id, t) ∷ [], e ∷ es)) = ⊥
  OneOf kind dev (gives (x ∷ y ∷ ts, es)) = ⊥
  OneOf kind dev (fails what) = ⊥
  OneOf kind dev escapes = Unit

  pushed :
      (kind : TypeWsReq) (dev : String) (r : Called (ℕ × TaskInfo)) (w : W)
      → Made kind group dev r
      → OneOf kind dev (as_member f d children p (push_back f d children p dev group (r, w))).0
  unfolding OneOf as_member push_back Made IsTaskOf
  pushed kind dev (gives task) w made = made
  pushed kind dev (fails what) w made = tt
  pushed kind dev escapes w made = tt

  member_one :
      (dev : String) (kind : TypeWsReq) (w : W)
      → p.type_req ≡ kind
      → is_async kind ≡ true
      → OneOf kind dev (as_member f d children p (process_async_req f d children p dev group w)).0
  unfolding process_async_req
  member_one dev TypeWsReq.command w is_kind async =
      let r = process_command f d children p dev group w in
      simp (is_kind, process_async_req)
        (pushed TypeWsReq.command dev r.0 r.1 (process_command-Made f d children p dev group w))
  member_one dev TypeWsReq.attribute_read w is_kind async =
      let r = process_attr_read f d children p dev group w in
      simp (is_kind, process_async_req)
        (pushed TypeWsReq.attribute_read dev r.0 r.1
          (process_attr_read-Made f d children p dev group w))
  member_one dev TypeWsReq.attribute_write w is_kind async =
      let r = process_attr_write f d children p dev group w in
      simp (is_kind, process_async_req)
        (pushed TypeWsReq.attribute_write dev r.0 r.1
          (process_attr_write-Made f d children p dev group w))
  member_one dev _ w is_kind async = ground arith

  after_proxy_one :
      (dev : String) (kind : TypeWsReq) (r : Asked (Unit {0})) (w : W)
      → p.type_req ≡ kind
      → is_async kind ≡ true
      → OneOf kind dev (after_proxy f d children p dev (r, w)).0
  unfolding after_proxy OneOf
  after_proxy_one dev kind (got u) w is_kind async = member_one dev kind w is_kind async
  after_proxy_one dev kind (dev_failed errs) w is_kind async = tt

  abbrev pub branch :
      List String → Called (Tasks × List String) → W → Called (Tasks × List String) × W
  branch devs first w = elim first [
    | gives g ↦
        let (rest, w') = process_group f d children p devs w in
        (join_rest f d children p g rest, w')
    | fails what ↦ (fails what, w)
    | escapes ↦ (escapes, w)
  ]

  joined :
      (kind : TypeWsReq) (dev : String) (devs : List String) (g : Tasks × List String)
      (rest : Called (Tasks × List String)) (v : W)
      → (after_proxy f d children p dev (d.new_proxy dev v)).0 ≡ gives g
      → OneOf kind dev (gives g)
      → Accounted kind devs rest
      → Accounted kind (dev ∷ devs) (join_rest f d children p g rest)
  unfolding Accounted OneOf IsErrorOf
  joined kind dev devs g (fails what) v asked one later = later
  joined kind dev devs g escapes v asked one later = tt
  joined kind dev devs ([], []) (gives r) v asked one later = elim one [ ]
  joined kind dev devs ([], err ∷ []) (gives (ts, es)) v asked one later = by_error (v, asked) later
  joined kind dev devs ([], err ∷ e ∷ es) (gives r) v asked one later = elim one [ ]
  joined kind dev devs ((id, t) ∷ [], []) (gives (ts, es)) v asked one later = by_task one later
  joined kind dev devs ((id, t) ∷ [], e ∷ es) (gives r) v asked one later = elim one [ ]
  joined kind dev devs (x ∷ y ∷ ts, es) (gives r) v asked one later = elim one [ ]

  branch-Accounted :
      (kind : TypeWsReq) (dev : String) (devs : List String) (first : Called (Tasks × List String))
      (w v : W)
      → (after_proxy f d children p dev (d.new_proxy dev v)).0 ≡ first
      → OneOf kind dev first
      → Accounted kind devs (process_group f d children p devs w).0
      → Accounted kind (dev ∷ devs) (branch devs first w).0
  unfolding Accounted OneOf
  branch-Accounted kind dev devs (gives g) w v asked one later =
      joined kind dev devs g (process_group f d children p devs w).0 v asked one later
  branch-Accounted kind dev devs (fails what) w v asked one later = one
  branch-Accounted kind dev devs escapes w v asked one later = tt

  -- A command, a reading or a write for a group never fails as a whole: for each device of the
  -- list, in its order, there is a task that is kept for this device, or the error that asking
  -- for this device comes to; unless an exception that is no `runtime_error` leaves the loop.
  pub process_group-Accounted :
      (devs : List String) (kind : TypeWsReq) (w : W)
      → p.type_req ≡ kind
      → is_async kind ≡ true
      → Accounted kind devs (process_group f d children p devs w).0
  unfolding process_group Accounted
  process_group-Accounted [] kind w is_kind async = nobody
  process_group-Accounted (dev ∷ devs) kind w is_kind async =
      let asked = d.new_proxy dev w in
      let first = after_proxy f d children p dev asked in
      branch-Accounted kind dev devs first.0 first.1 w refl
        (after_proxy_one dev kind asked.0 asked.1 is_kind async)
        (process_group-Accounted devs kind first.1 is_kind async)
