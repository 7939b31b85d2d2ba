-- ===== src/Events/Reply.antt =====
-- src/wstangoproc_cli/EventProcCli.cpp and EventReqException.h: what a request is answered with.
use web_socket_ds.Base.{String}
use web_socket_ds.Base.Dict.{string_eq, nat_eq}
use web_socket_ds.Wire.{ErrorType}
use web_socket_ds.Request.{ParsedInputJson}
use web_socket_ds.StringProc.Response.{error_info, exception_string_out}

-- A text, or the exception with the texts for the failures and for the successes.
pub data EventReply : Type 0 where
  message : String → EventReply
  event_req_exception : String → String → EventReply

module _ {Tree : Type 0} (p : ParsedInputJson Tree) where
  -- The refusals that name the request and its id.
  unfoldable pub refuse : ErrorType → String → EventReply
  refuse kind text = message (
      exception_string_out
        (record (error_info kind) { typeof_req = p.type_req_str; id = p.id; error_message = text }))
