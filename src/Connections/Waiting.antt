-- ===== src/Connections/Waiting.antt =====
-- src/wstangoproc_common/WSThread.cpp, `addActive`: what a connection waits for behind it.
use web_socket_ds.Base.{
  ◌≡◌, refl, ℕ, true, false, List, some, ◌||◌, if◌then◌else◌, is_some, nat_beq, arith, Bool-cases,
  inl, inr,
}
use web_socket_ds.Base.Dict.{Dict, lookup, assign, lookup-assign, nat_eq}
use web_socket_ds.Connections.{TaskInfo, Connection, WsThread, member, insert}
use web_socket_ds.Connections.Opening.{insert_tasks, put_tasks, add_active}
use web_socket_ds.Connections.Active.{member-insert}
use web_socket_ds.Connections.Tasks.{lookup-insert_tasks}

abbrev with_tasks : ℕ → Dict ℕ TaskInfo → Connection → List ℕ → WsThread → WsThread
with_tasks hdl ts c active st = record st {
  m_connections = assign hdl (record c { id_command_info = ts }) st.m_connections;
  m_active_connections = active;
}

put_tasks_found :
    (hdl : ℕ) (tasks : Dict ℕ TaskInfo) (c : Connection) (st : WsThread)
    → lookup hdl st.m_connections ≡ some c
    → put_tasks hdl tasks st
      ≡ some (with_tasks hdl (insert_tasks tasks c.id_command_info) c st.m_active_connections st)
unfolding put_tasks
put_tasks_found hdl tasks c st known = rw (known, put_tasks) refl

insert_present : (h : ℕ) (ks : List ℕ) → member h ks ≡ true → insert h ks ≡ ks
unfolding insert
insert_present h ks known = rw known refl

add_active_found :
    (hdl : ℕ) (tasks : Dict ℕ TaskInfo) (c : Connection) (st : WsThread)
    → lookup hdl st.m_connections ≡ some c
    → add_active hdl tasks st
      ≡ some (
          with_tasks hdl
            (insert_tasks tasks c.id_command_info)
            c
            (insert hdl st.m_active_connections)
            st)
unfolding add_active
add_active_found hdl tasks c st known = elim (Bool-cases (member hdl st.m_active_connections)) [
  | inl active ↦
      rw (active, insert_present hdl st.m_active_connections active)
        (put_tasks_found hdl tasks c st known)
  | inr idle ↦
      rw (idle, known)
        (put_tasks_found hdl tasks c
          (record st { m_active_connections = insert hdl st.m_active_connections }) known)
]

-- With tasks for an open connection `addActive` follows no null pointer. Behind it that connection
-- is active and waits for the tasks that it had and for the new ones, except that a new task whose
-- id is in use is dropped; nothing else of it changes, and no other connection changes or becomes
-- active or idle.
pub add_active_lem :
    (hdl : ℕ) (tasks : Dict ℕ TaskInfo) (c : Connection) (st : WsThread)
    → lookup hdl st.m_connections ≡ some c
    → (st' : WsThread) × ((ts : Dict ℕ TaskInfo) × ((add_active hdl tasks st ≡ some st')
          × ((lookup hdl st'.m_connections ≡ some (record c { id_command_info = ts }))
              × (((id : ℕ)
                    → lookup id ts ≡ (
                        if is_some (lookup id c.id_command_info)
                        then lookup id c.id_command_info
                        else lookup id tasks))
                  × (((k : ℕ)
                        → nat_beq hdl k ≡ false
                        → lookup k st'.m_connections ≡ lookup k st.m_connections)
                      × ((k : ℕ)
                          → member k st'.m_active_connections
                            ≡ (member k st.m_active_connections || nat_beq hdl k)))))))
add_active_lem hdl tasks c st known =
    let ts = insert_tasks tasks c.id_command_info in
    let found =
      λ (k : ℕ). lookup-assign hdl k (record c { id_command_info = ts }) st.m_connections in
    (
      with_tasks hdl ts c (insert hdl st.m_active_connections) st,
      (
        ts,
        (
          add_active_found hdl tasks c st known,
          (
            ground (arith, found hdl, nat_eq.beq_iff hdl hdl),
            (
              λ id. lookup-insert_tasks id tasks c.id_command_info,
              (
                λ k other. ground (arith, found k),
                λ k. member-insert k hdl st.m_active_connections,
              ),
            ),
          ),
        ),
      ),
    )
