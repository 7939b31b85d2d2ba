-- ===== src/Connections/Address.antt =====
-- src/wstangoproc_common/WSThread.cpp and WSThread_plain.cpp: where the user and the address of a
-- new connection come from.
use web_socket_ds.Base.{
  ◌≡◌, refl, ◌∙◌, ℕ, String, Bool, true, [], some, arith, if◌then◌else◌, get_or, nonempty, str_beq,
  eq_iff, Bool-cases, inl, inr,
}
use web_socket_ds.Base.Dict.{Dict, lookup, lookup-assign, string_eq}
use web_socket_ds.StringProc.Split.{parse_of_get_query, split}
use web_socket_ds.StringProc.Split.Query.{query_of, all_plain, lookup-parse_of_get_query}
use web_socket_ds.Session.Options.{WsTangoConn}
use web_socket_ds.Session.Users.{get_connection_data}
use web_socket_ds.Connections.{Server, TangoConn}
use web_socket_ds.Connections.Opening.{client_ip, get_remote_conf, new_connection}

parsed_empty : parse_of_get_query "" ≡ []
unfolding parse_of_get_query split
parsed_empty = refl

when_empty :
    (query : String)
    → (if nonempty query then parse_of_get_query query else []) ≡ parse_of_get_query query
when_empty query = elim (Bool-cases (nonempty query)) [
  | inl full ↦ rw full refl
  | inr empty ↦
      let is_empty_text : query ≡ "" = ground (arith, eq_iff query "") in
      rw (empty, is_empty_text, parsed_empty) refl
]

lookup-remote_conf :
    (name endpoint forwarded query : String) (ps : Dict String String)
    → all_plain ps ≡ true
    → query ≡ query_of ps
    → lookup name (get_remote_conf endpoint forwarded query)
      ≡ (if str_beq "ip" name then some (client_ip forwarded endpoint) else lookup name ps)
unfolding get_remote_conf
lookup-remote_conf name endpoint forwarded query ps plain is_query =
    lookup-assign "ip" name (client_ip forwarded endpoint)
      (if nonempty query then parse_of_get_query query else [])
    ∙ rw (when_empty query, is_query, lookup-parse_of_get_query name ps plain) refl

module _ {Tree W : Type 0} (io : Server W) (s : WsTangoConn) (tc : TangoConn Tree W) where
  -- A client whose query is written from plain names and values opens its connection as the user
  -- whom the query names first, with the first password there. Its address is the proxied or the
  -- remote one, whatever the query says of an address.
  pub new_connection_user :
      (ps : Dict String String) (unset : Bool) (hdl session : ℕ) (w : W)
      → all_plain ps ≡ true
      → io.query hdl w ≡ query_of ps
      → let user = (new_connection io s tc unset hdl session w).user in
        (user.login ≡ get_or (lookup "login" ps) "")
        × ((user.password ≡ get_or (lookup "password" ps) "")
            × (user.ip_client ≡ client_ip (io.forwarded_for hdl w) (io.remote_endpoint hdl w)))
  unfolding new_connection get_connection_data
  new_connection_user ps unset hdl session w plain is_query =
      let conf = λ (name : String).
        lookup-remote_conf name (io.remote_endpoint hdl w) (io.forwarded_for hdl w) (io.query hdl w)
          ps plain is_query in
      (rw (conf "login") refl, (rw (conf "password") refl, rw (conf "ip") refl))
