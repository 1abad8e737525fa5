-- ===== src/Sender/Wasapi/Platform.antt =====
-- The calls of COM and WASAPI that wasapi_loopback_capture.cpp makes. They are a parameter: a call
-- takes the state of the platform to its answer and the state after it.
use wiretone.Prelude.{ℕ, Bool, Option, String}

-- `WAVEFORMATEX::wFormatTag`
pub data FormatTag : Type 0 where
  pcm ieee_float extensible other : FormatTag

-- `WAVEFORMATEXTENSIBLE::SubFormat`
pub data SubFormat : Type 0 where
  pcm ieee_float other : SubFormat

-- `WAVEFORMATEX`, and behind it the rest of `WAVEFORMATEXTENSIBLE`.
pub record WaveFormat : Type 0 where
  pub format_tag : FormatTag
  pub channels : ℕ  -- uint16
  pub samples_per_sec : ℕ  -- uint32
  pub bits_per_sample : ℕ  -- uint16
  pub block_align : ℕ  -- uint16
  pub is_extended : Bool  -- `cbSize` covers the rest
  pub valid_bits_per_sample : ℕ  -- uint16
  pub channel_mask : ℕ  -- uint32
  pub sub_format : SubFormat

pub record Platform : Type 1 where
  pub HResult : Type 0
  pub failed : HResult → Bool  -- `FAILED`
  pub is_device_invalidated : HResult → Bool  -- `AUDCLNT_E_DEVICE_INVALIDATED`
  pub is_resources_invalidated : HResult → Bool  -- `AUDCLNT_E_RESOURCES_INVALIDATED`
  pub s_ok : HResult
  pub e_unexpected : HResult
  pub e_invalidarg : HResult
  pub e_fail : HResult
  pub e_outofmemory : HResult
  pub e_pointer : HResult
  pub World : Type 0
  pub co_initialize : World → HResult × World
  pub create_enumerator : World → HResult × World
  pub new_notification_client : World → Bool × World  -- whether there was memory
  pub register_notifications : World → HResult × World
  pub get_default_audio_endpoint : World → HResult × World
  pub get_id : World → HResult × String × World
  pub open_property_store : World → HResult × World
  pub get_friendly_name : World → HResult × Option String × World  -- no value but a string
  pub activate : World → HResult × World
  pub get_mix_format : World → HResult × Option WaveFormat × World
  pub initialize_client : World → HResult × World
  pub get_service : World → HResult × World
  pub get_buffer_size : World → HResult × ℕ × World
  pub start_client : World → HResult × World
  pub stop_client : World → HResult × World
