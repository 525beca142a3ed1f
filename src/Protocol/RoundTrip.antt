-- ===== src/Protocol/RoundTrip.antt =====
-- Decoding what `to_json` encodes (src/daemon_protocol.cpp).
use ee_eq_cli.Common.{
  ℕ, Bool, true, false, String, List, [], ◌∷◌, some, ◌≡◌, refl, ◌∙◌, ◌=s◌, if◌then◌else◌,
}
use ee_eq_cli.Floats.{FloatOps}
use ee_eq_cli.Outcome.{ok}
use ee_eq_cli.Json.{JsonLib, JsonLaws, Codec, lookup}
use ee_eq_cli.Json.Reading.{value-object, value-set, value-set_ne}
use ee_eq_cli.Protocol.{
  DaemonStatus, DesiredState, EffectiveState, DaemonRequest, DaemonResponse, no_status,
}
use ee_eq_cli.Protocol.Texts.{
  daemon_state_text, session_state_text, health_text, parse_daemon_state-text,
  parse_session_state-text, parse_health_state-text,
}
use ee_eq_cli.Protocol.Encoding.{
  status_to_json, desired_part, effective_part, daemon_part, session_part, desired_from_json,
  effective_from_json, status_from_json, request_from_json, request_to_json, response_to_json,
  response_from_json, shows_status, answer_part, add_sinks,
}

module _ {F : FloatOps} {J : JsonLib F} (L : JsonLaws J) where
  open F use {Float, f_one}
  open J use {Json, object, at_key, value, text, texts, bool, int, float}

  module _ (m : List (String × Json)) (k : String) where
    read_text : (d x : String) → lookup k m ≡ some (text.put x) → value text (object m) k d ≡ ok x
    read_text d x e = value-object L text m k d x e (L.text-get x)

    read_bool : (d x : Bool) → lookup k m ≡ some (bool.put x) → value bool (object m) k d ≡ ok x
    read_bool d x e = value-object L bool m k d x e (L.bool-get x)

    read_int : (d x : ℕ) → lookup k m ≡ some (int.put x) → value int (object m) k d ≡ ok x
    read_int d x e = value-object L int m k d x e (L.int-get x)

    read_float : (d x : Float) → lookup k m ≡ some (float.put x) → value float (object m) k d ≡ ok x
    read_float d x e = value-object L float m k d x e (L.float-get x)

    read_texts :
        (d x : List String) → lookup k m ≡ some (texts.put x) → value texts (object m) k d ≡ ok x
    read_texts d x e = value-object L texts m k d x e (L.texts-get x)

  -- A request comes back from its JSON object.
  pub request-round_trip : (r : DaemonRequest) → request_from_json J (request_to_json J r) ≡ ok r
  unfolding request_from_json request_to_json
  request-round_trip r =
      rw
        (
          read_text _ "command" "" r.command refl,
          read_text _ "preset_path" "" r.preset_path refl,
          read_text _ "sink_selector" "" r.sink_selector refl,
        )
        refl

  desired-round_trip : (d : DesiredState Float) → desired_from_json J (desired_part J d) ≡ ok d
  unfolding desired_from_json
  desired-round_trip d =
      rw
        (
          read_text _ "preset_path" "" d.preset_path refl,
          read_text _ "sink_selector" "" d.sink_selector refl,
          read_bool _ "enabled" false d.enabled refl,
          read_bool _ "bypass" false d.bypass refl,
          read_float _ "volume" f_one d.volume refl,
        )
        refl

  effective-round_trip :
      (e : EffectiveState Float) → effective_from_json J (effective_part J e) ≡ ok e
  unfolding effective_from_json
  effective-round_trip e =
      rw
        (
          read_bool _ "session_active" false e.session_active refl,
          read_text _ "preset_origin" "" e.preset_origin refl,
          read_text _ "sink_name" "" e.sink_name refl,
          read_int _ "sink_serial" 0 e.sink_serial refl,
          read_texts _ "active_plugins" [] e.active_plugins refl,
          read_bool _ "bypass" false e.bypass refl,
          read_float _ "volume" f_one e.volume refl,
        )
        refl

  -- A status comes back from its JSON object.
  status-round_trip : (s : DaemonStatus Float) → status_from_json J (status_to_json J s) ≡ ok s
  unfolding status_from_json status_to_json
  status-round_trip s =
      rw
        (
          L.object-at _ "daemon" (daemon_part J s) refl,
          L.object-at _ "session" (session_part J s) refl,
          L.object-at _ "desired" (desired_part J s.desired) refl,
          L.object-at _ "effective" (effective_part J s.effective) refl,
          read_text _ "state" "failed" (daemon_state_text s.daemon_state) refl,
          read_text _ "state" "disabled" (session_state_text s.session_state) refl,
          desired-round_trip s.desired,
          effective-round_trip s.effective,
          read_text _ "health" "failed" (health_text s.health) refl,
          read_text _ "last_error" "" s.last_error refl,
          read_text _ "version" "" s.version refl,
          read_int _ "pid" 0 s.pid refl,
          read_text _ "started_at" "" s.started_at refl,
          parse_daemon_state-text s.daemon_state,
          parse_session_state-text s.session_state,
          parse_health_state-text s.health,
        )
        refl

  module _ (r : DaemonResponse Float) where
    sinks-is_object : (xs : List String) → J.is_object (add_sinks J xs (answer_part J r)) ≡ true
    sinks-is_object [] = L.object-is_object _
    sinks-is_object (x ∷ xs) = L.set-is_object _ _ _ (L.object-is_object _)

    -- The members that the list of sinks does not touch.
    value-sinks :
        {A : Type 0} (c : Codec Json A) (k : String) (d : A) (xs : List String)
        → ("sinks" =s k) ≡ false
        → value c (add_sinks J xs (answer_part J r)) k d ≡ value c (answer_part J r) k d
    value-sinks c k d [] n = refl
    value-sinks c k d (x ∷ xs) n = value-set_ne L c _ _ k _ d (L.object-is_object _) n

    sinks-read :
        (xs : List String) → value texts (add_sinks J xs (answer_part J r)) "sinks" [] ≡ ok xs
    sinks-read [] = L.value-absent texts _ _ [] (L.object-is_object _) (L.object-lacks _ _ refl)
    sinks-read (x ∷ xs) =
        value-set L texts _ _ [] (x ∷ xs) (L.object-is_object _) (L.texts-get (x ∷ xs))

    sinks-lacks_status :
        (xs : List String) → J.contains (add_sinks J xs (answer_part J r)) "status" ≡ false
    sinks-lacks_status [] = L.object-lacks _ _ refl
    sinks-lacks_status (x ∷ xs) =
        L.set-contains_ne _ _ "status" _ (L.object-is_object _) refl ∙ L.object-lacks _ _ refl

    -- What a response says about the daemon when it is read back.
    response-at :
        (b : Bool)
        → shows_status J r.status ≡ b
        → response_from_json J (response_to_json J r)
          ≡ ok (record r { status = if b then r.status else no_status F })
    unfolding response_from_json response_to_json
    response-at true e =
        rw
          (
            e,
            value-set_ne L bool _ "status" "ok" _ false (sinks-is_object r.sinks) refl,
            value-sinks bool "ok" false r.sinks refl,
            read_bool _ "ok" false r.ok refl,
            value-set_ne L text _ "status" "error" _ "" (sinks-is_object r.sinks) refl,
            value-sinks text "error" "" r.sinks refl,
            read_text _ "error" "" r.error refl,
            value-set_ne L texts _ "status" "sinks" _ [] (sinks-is_object r.sinks) refl,
            sinks-read r.sinks,
            L.set-contains _ "status" (status_to_json J r.status) (sinks-is_object r.sinks),
            L.set-at _ "status" (status_to_json J r.status) (sinks-is_object r.sinks),
            status-round_trip r.status,
          )
          refl
    response-at false e =
        rw
          (
            e,
            value-sinks bool "ok" false r.sinks refl,
            read_bool _ "ok" false r.ok refl,
            value-sinks text "error" "" r.sinks refl,
            read_text _ "error" "" r.error refl,
            sinks-read r.sinks,
            sinks-lacks_status r.sinks,
          )
          refl

  -- A response comes back from its JSON object, its status if the object carries one and the
  -- default status if not.
  pub response-round_trip :
      (r : DaemonResponse Float)
      → response_from_json J (response_to_json J r)
        ≡ ok (record r { status = if shows_status J r.status then r.status else no_status F })
  response-round_trip r = response-at r (shows_status J r.status) refl
