-- ===== src/Wire/Tags.antt =====
-- The text tags of src/wstangoproc_common/EnumConverter.h tell the enumerators apart.
use web_socket_ds.Base.{◌≡◌, refl, ap, String, Option, some, [], ◌∷◌}
use web_socket_ds.Base.Dict.{Dict, lookup, string_eq}
use web_socket_ds.Wire.{
  ErrorType, EventType, change_event, periodic_event, user_event, archive_event,
  error_type_to_string, event_type_to_string,
}

error_tags : Dict String ErrorType
error_tags =
    ("init_failed", ErrorType.init_failed)
    ∷ ("auth_check", ErrorType.auth_check)
    ∷ ("auth_perm", ErrorType.auth_perm)
    ∷ ("auth_server_err", ErrorType.auth_server_err)
    ∷ ("is_not_valid", ErrorType.is_not_valid)
    ∷ ("not_supp", ErrorType.not_supp)
    ∷ ("not_supp_in_curr", ErrorType.not_supp_in_curr)
    ∷ ("unknown_req_type", ErrorType.unknown_req_type)
    ∷ ("check_request", ErrorType.check_request)
    ∷ ("tango_exc", ErrorType.tango_exception)
    ∷ ("unavailable_devs", ErrorType.unavailable_devs)
    ∷ ("event_err", ErrorType.event_err)
    ∷ ("event_dev_err", ErrorType.exc_from_event_dev)
    ∷ ("check_code", ErrorType.check_code)
    ∷ ("subscr_not_found", ErrorType.subscr_not_found)
    ∷ ("commun_failed", ErrorType.communication_failed)
    ∷ ("conn_failed", ErrorType.connection_failed)
    ∷ ("unknown_exc", ErrorType.unknown_exc)
    ∷ ("not_subscr_yet", ErrorType.not_subscr_yet)
    ∷ ("from_event_sub", ErrorType.from_event_subscr)
    ∷ ("device_not_in_group", ErrorType.device_not_in_group)
    ∷ []

error_of_tag : String → Option ErrorType
unfolding error_tags lookup
error_of_tag tag = lookup tag error_tags

error_of_tag-error_type_to_string : (e : ErrorType) → error_of_tag (error_type_to_string e) ≡ some e
unfolding error_of_tag error_type_to_string
error_of_tag-error_type_to_string ErrorType.init_failed = refl
error_of_tag-error_type_to_string ErrorType.auth_check = refl
error_of_tag-error_type_to_string ErrorType.auth_perm = refl
error_of_tag-error_type_to_string ErrorType.auth_server_err = refl
error_of_tag-error_type_to_string ErrorType.is_not_valid = refl
error_of_tag-error_type_to_string ErrorType.not_supp = refl
error_of_tag-error_type_to_string ErrorType.not_supp_in_curr = refl
error_of_tag-error_type_to_string ErrorType.unknown_req_type = refl
error_of_tag-error_type_to_string ErrorType.check_request = refl
error_of_tag-error_type_to_string ErrorType.tango_exception = refl
error_of_tag-error_type_to_string ErrorType.unavailable_devs = refl
error_of_tag-error_type_to_string ErrorType.event_err = refl
error_of_tag-error_type_to_string ErrorType.exc_from_event_dev = refl
error_of_tag-error_type_to_string ErrorType.check_code = refl
error_of_tag-error_type_to_string ErrorType.subscr_not_found = refl
error_of_tag-error_type_to_string ErrorType.communication_failed = refl
error_of_tag-error_type_to_string ErrorType.connection_failed = refl
error_of_tag-error_type_to_string ErrorType.unknown_exc = refl
error_of_tag-error_type_to_string ErrorType.not_subscr_yet = refl
error_of_tag-error_type_to_string ErrorType.from_event_subscr = refl
error_of_tag-error_type_to_string ErrorType.device_not_in_group = refl

-- Two kinds of error with one tag are the same kind: a client can tell every kind from the text.
pub error_type_to_string-injective :
    (e f : ErrorType) → error_type_to_string e ≡ error_type_to_string f → e ≡ f
error_type_to_string-injective e f h =
    cc (error_of_tag-error_type_to_string e, error_of_tag-error_type_to_string f, ap error_of_tag h)

event_of_tag : String → Option EventType
unfolding lookup
event_of_tag tag = lookup tag (
    ("archive", archive_event)
    ∷ ("periodic", periodic_event)
    ∷ ("user", user_event)
    ∷ ("change", change_event)
    ∷ [])

event_of_tag-event_type_to_string : (e : EventType) → event_of_tag (event_type_to_string e) ≡ some e
unfolding event_of_tag event_type_to_string
event_of_tag-event_type_to_string archive_event = refl
event_of_tag-event_type_to_string periodic_event = refl
event_of_tag-event_type_to_string user_event = refl
event_of_tag-event_type_to_string change_event = refl

-- Two types of event never have one tag, which is also the key of a subscription in `eventSubs`.
pub event_type_to_string-injective :
    (e f : EventType) → event_type_to_string e ≡ event_type_to_string f → e ≡ f
event_type_to_string-injective e f h =
    cc (event_of_tag-event_type_to_string e, event_of_tag-event_type_to_string f, ap event_of_tag h)
