-- ===== src/Devices/Made.antt =====
-- src/wstangoproc_common/TangoProcessor.cpp: what the task of a request to a device holds.
use web_socket_ds.Base.{◌≡◌, refl, ℕ, String, not, ◌&&◌, List, if_holds}
use web_socket_ds.Base.Dict.{Dict}
use web_socket_ds.Wire.{TypeWsReq, SingleOrGroup}
use web_socket_ds.Request.{ParsedInputJson, is_none, is_array, check_key, value_at}
use web_socket_ds.StringProc.Precision.{check_precision_options, check_precision_list}
use web_socket_ds.Connections.{TaskInfo, Called, gives, fails, escapes}
use web_socket_ds.Devices.{
  TangoType, is_massive, no_data, DeviceData, AttributeInput, AttributeInfo, Formats, Asked, got,
  dev_failed, Devices,
}
use web_socket_ds.Devices.Argin.{get_device_data, get_device_attribute_data}
use web_socket_ds.Devices.Asking.{
  command_task, task_info, after_command, with_argin, with_type, after_query, process_command,
  after_read, attribute_names, process_attr_read, after_write, with_input, after_info,
  process_attr_write, is_void,
}

-- The task, where there is one, is of this kind and for this device.
unfoldable pub Made : TypeWsReq → SingleOrGroup → String → Called (ℕ × TaskInfo) → Type 0
Made kind sog dev (gives (id, t)) =
    (t.type_asynq_req ≡ kind) × ((t.single_or_group ≡ sog) × (t.device_for_ws ≡ dev))
Made kind sog dev (fails what) = Unit
Made kind sog dev escapes = Unit

module _ {F W Tree : Type 0} (f : Formats F) (d : Devices F W)
    (children : Tree → List (String × String)) (p : ParsedInputJson Tree) (dev : String)
    (sog : SingleOrGroup) where
  after_command-Made :
      (name opt : String) (r : Asked ℕ) (w : W)
      → Made TypeWsReq.command sog dev (after_command f d children p dev sog name opt (r, w)).0
  unfolding after_command command_task task_info Made
  after_command-Made name opt (got id) w = (refl, (refl, refl))
  after_command-Made name opt (dev_failed errs) w = tt

  with_argin-Made :
      (name opt : String) (c : Called (DeviceData F)) (w : W)
      → Made TypeWsReq.command sog dev (with_argin f d children p dev sog name opt c w).0
  unfolding with_argin Made
  with_argin-Made name opt (gives x) w =
      let r = d.command_inout_asynch dev name x w in after_command-Made name opt r.0 r.1
  with_argin-Made name opt (fails what) w = tt
  with_argin-Made name opt escapes w = tt

  with_type-Made :
      (name opt : String) (t : TangoType) (w : W)
      → Made TypeWsReq.command sog dev (with_type f d children p dev sog name opt t w).0
  unfolding with_type Made
  with_type-Made name opt t w =
      let Good = λ (r : Called (ℕ × TaskInfo) × W). Made TypeWsReq.command sog dev r.0 in
      if_holds Good (is_void t) _ _
        (λ v.
          let r = d.command_inout_asynch dev name no_data w in after_command-Made name opt r.0 r.1)
        (λ v.
          if_holds Good (is_none (check_key p "argin")) _ _ (λ n. tt)
            (λ n.
              if_holds Good (is_array (check_key p "argin") && not (is_massive t)) _ _ (λ m. tt)
                (λ m. with_argin-Made name opt (get_device_data f p t) w)))

  after_query-Made :
      (name opt : String) (r : Asked TangoType) (w : W)
      → Made TypeWsReq.command sog dev (after_query f d children p dev sog name opt (r, w)).0
  unfolding after_query Made
  after_query-Made name opt (got t) w = with_type-Made name opt t w
  after_query-Made name opt (dev_failed errs) w = tt

  pub process_command-Made :
      (w : W) → Made TypeWsReq.command sog dev (process_command f d children p dev sog w).0
  unfolding process_command
  process_command-Made w =
      let (name, opt) = check_precision_options (value_at p "command_name") p in
      let r = d.command_query dev name w in after_query-Made name opt r.0 r.1

  after_read-Made :
      (names : List String) (opts : Dict String String) (r : Asked ℕ) (w : W)
      → Made TypeWsReq.attribute_read sog dev
          (after_read f d children p dev sog names opts (r, w)).0
  unfolding after_read task_info Made
  after_read-Made names opts (got id) w = (refl, (refl, refl))
  after_read-Made names opts (dev_failed errs) w = tt

  pub process_attr_read-Made :
      (w : W) → Made TypeWsReq.attribute_read sog dev (process_attr_read f d children p dev sog w).0
  unfolding process_attr_read
  process_attr_read-Made w =
      let (names, opts) =
        check_precision_list children (attribute_names f d children p dev sog) p in
      let r = d.read_attributes_asynch dev names w in after_read-Made names opts r.0 r.1

  after_write-Made :
      (attr : String) (r : Asked ℕ) (w : W)
      → Made TypeWsReq.attribute_write sog dev (after_write f d children p dev sog attr (r, w)).0
  unfolding after_write task_info Made
  after_write-Made attr (got id) w = (refl, (refl, refl))
  after_write-Made attr (dev_failed errs) w = tt

  with_input-Made :
      (attr name : String) (c : Called (AttributeInput F)) (w : W)
      → Made TypeWsReq.attribute_write sog dev (with_input f d children p dev sog attr name c w).0
  unfolding with_input Made
  with_input-Made attr name (gives x) w =
      let r = d.write_attribute_asynch dev name x w in after_write-Made attr r.0 r.1
  with_input-Made attr name (fails what) w = tt
  with_input-Made attr name escapes w = tt

  after_info-Made :
      (attr : String) (r : Asked AttributeInfo) (w : W)
      → Made TypeWsReq.attribute_write sog dev (after_info f d children p dev sog attr (r, w)).0
  unfolding after_info Made
  after_info-Made attr (got info) w =
      with_input-Made attr info.name (get_device_attribute_data f p info) w
  after_info-Made attr (dev_failed errs) w = tt

  pub process_attr_write-Made :
      (w : W)
      → Made TypeWsReq.attribute_write sog dev (process_attr_write f d children p dev sog w).0
  unfolding process_attr_write
  process_attr_write-Made w =
      let r = d.attribute_query dev (value_at p "attr_name") w in
      after_info-Made (value_at p "attr_name") r.0 r.1
