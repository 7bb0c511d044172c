-- ===== src/Guards/Sensing.antt =====
-- Where the guards look: crates/app-powerd-core/src/guards/audio.rs, camera.rs and input.rs. What
-- `pw-dump` prints and the X server's idle time are parameters.
use app_powerd.Prelude.{
  ℕ, ◌≡◌, ◌^◌, List, [], ◌∷◌, ◌++◌, Bool, true, false, ◌&&◌, ◌||◌, Option, none, some, Text, codes,
  text_eq, contains, nat_eq, and_then, unwrap_or, parse_unsigned, decimal, any, join, starts_with,
  ltb, if◌then◌else◌, Bool-cases, inl, inr, arith,
}
use app_powerd.Host.{Host, Trace, FileRead, contents, refused}
use app_powerd.Guards.{Sensors}

-- PipeWire writes a PID as a number of 64 bits, or as text.
pub data PidValue : Type 0 where
  number : ℕ → PidValue
  text : Text → PidValue

pub record PwProps : Type 0 where
  pub media_class : Option Text
  pub app_pid : Option PidValue

-- `info` of a node, which may be missing.
pub record PwNode : Type 0 where
  pub info : Option PwProps

unfoldable pub as_u32 : PidValue → Option ℕ
unfolding parse_unsigned
as_u32 (number n) = if ltb n (2 ^ 32) then some n else none
as_u32 (text s) = parse_unsigned 32 s

pub record AudioActivity : Type 0 where
  pub playing : Bool
  pub mic_active : Bool

abbrev pub no_activity : AudioActivity
no_activity = record { playing = false; mic_active = false }

abbrev is_class : Text → PwProps → Bool
is_class class props = text_eq (unwrap_or props.media_class []) class

abbrev pub is_playback : PwProps → Bool
is_playback = is_class (codes "Stream/Output/Audio")

abbrev pub is_capture : PwProps → Bool
is_capture = is_class (codes "Stream/Input/Audio")

abbrev pub owned_by : List ℕ → Option ℕ → Bool
owned_by pids none = false
owned_by pids (some pid) = contains pids pid

abbrev pub stream_pid : PwProps → Option ℕ
stream_pid props = and_then props.app_pid as_u32

-- What one node adds to what is known.
unfoldable pub hear : List ℕ → Option PwProps → AudioActivity → AudioActivity
unfolding as_u32
hear pids none a = a
hear pids (some props) a =
    if (is_playback props || is_capture props) && owned_by pids (stream_pid props)
    then record {
      playing = a.playing || is_playback props;
      mic_active = a.mic_active || is_capture props;
    }
    else a

-- The loop over the nodes, which ends early once both are found.
unfoldable pub listen : List ℕ → List PwNode → AudioActivity → AudioActivity
unfolding hear
listen pids [] a = a
listen pids (node ∷ nodes) a =
    let heard = hear pids node.info a in
    let rest = listen pids nodes heard in if heard.playing && heard.mic_active then heard else rest

-- `dump` is `none` where `pw-dump` is missing, fails, takes too long or prints no such JSON.
unfoldable pub check_audio_activity : Option (List PwNode) → List ℕ → AudioActivity
unfolding listen
check_audio_activity none pids = no_activity
check_audio_activity (some nodes) pids = listen pids nodes no_activity

abbrev leads_to_video : FileRead → Bool
leads_to_video (contents target) = starts_with (codes "/dev/video") target
leads_to_video (refused e) = false

module _ (host : Host) (t : Trace) where
  unfoldable pub has_video_in : Text → List Text → Bool
  has_video_in dir [] = false
  has_video_in dir (fd ∷ fds) =
      let rest = has_video_in dir fds in
      if leads_to_video (host.read_link t (join dir fd)) then true else rest

  unfoldable pub has_video_fd : ℕ → Bool
  unfolding has_video_in
  has_video_fd pid =
      let dir = codes "/proc/" ++ decimal pid ++ codes "/fd" in
      elim (host.read_dir t dir) [ none ↦ false | some fds ↦ has_video_in dir fds ]

  unfoldable pub check_camera_sync : List ℕ → Bool
  unfolding has_video_fd
  check_camera_sync [] = false
  check_camera_sync (pid ∷ pids) =
      let rest = check_camera_sync pids in if has_video_fd pid then true else rest

unfoldable pub has_recent_input : Option ℕ → ℕ → Bool
has_recent_input none threshold = false
has_recent_input (some idle) threshold = ltb idle threshold

-- The sensors of the guards, as these files read them.
unfoldable pub sensors_of :
    Host → (Trace → Option (List PwNode)) → (Trace → Option ℕ) → Trace → Sensors
unfolding check_audio_activity check_camera_sync has_recent_input
sensors_of host dump idle t = record {
  playing = λ pids. (check_audio_activity (dump t) pids).playing;
  mic_in_use = λ pids. (check_audio_activity (dump t) pids).mic_active;
  using_camera = check_camera_sync host t;
  has_recent_input = has_recent_input (idle t);
}

-- A stream of the kind that one of the processes owns.
abbrev pub owns_stream : (PwProps → Bool) → List ℕ → Option PwProps → Bool
owns_stream kind pids none = false
owns_stream kind pids (some props) = kind props && owned_by pids (stream_pid props)

abbrev pub some_stream : (PwProps → Bool) → List ℕ → List PwNode → Bool
some_stream kind pids nodes = any (λ node. owns_stream kind pids node.info) nodes

hear-playing :
    (pids : List ℕ) (info : Option PwProps) (a : AudioActivity)
    → (hear pids info a).playing ≡ (a.playing || owns_stream is_playback pids info)
unfolding hear
hear-playing pids none a = ground arith
hear-playing pids (some props) a = ground arith

hear-mic :
    (pids : List ℕ) (info : Option PwProps) (a : AudioActivity)
    → (hear pids info a).mic_active ≡ (a.mic_active || owns_stream is_capture pids info)
unfolding hear
hear-mic pids none a = ground arith
hear-mic pids (some props) a = ground arith

listen-some_stream :
    (pids : List ℕ) (nodes : List PwNode) (a : AudioActivity)
    → ((listen pids nodes a).playing ≡ (a.playing || some_stream is_playback pids nodes))
      × ((listen pids nodes a).mic_active ≡ (a.mic_active || some_stream is_capture pids nodes))
unfolding listen any
listen-some_stream pids [] a = (ground arith, ground arith)
listen-some_stream pids (node ∷ nodes) a =
    let heard = hear pids node.info a in
    let rest = listen-some_stream pids nodes heard in
    let p = hear-playing pids node.info a in
    let m = hear-mic pids node.info a in
    elim (Bool-cases (heard.playing && heard.mic_active)) [
      | inl both ↦ rw both (ground (arith, p, both), ground (arith, m, both))
      | inr more ↦ rw more (ground (arith, p, rest.0), ground (arith, m, rest.1))
    ]

-- The audio guards see exactly what there is: the answer is true when some stream of that kind
-- belongs to one of the processes, though the loop may end early; and no dump means no activity.
pub check_audio_activity-some_stream :
    (pids : List ℕ) (nodes : List PwNode)
    → ((check_audio_activity (some nodes) pids).playing ≡ some_stream is_playback pids nodes)
      × ((check_audio_activity (some nodes) pids).mic_active ≡ some_stream is_capture pids nodes)
unfolding check_audio_activity
check_audio_activity-some_stream pids nodes = listen-some_stream pids nodes no_activity
