-- ===== src/Apple/Video.antt =====
-- avr/bus_apple2.c:113-153 and 320-338: the video events and the soft switches.
use sage_apple.Base.{
  ℕ, ◌+◌, ◌-◌, Bool, ◌||◌, [], ◌∷◌, bit_and, bit_or, u8, u16, set, get_or, ltb, between, ◌==◌,
  switch, if◌then◌else◌,
}
use sage_apple.Apple.State.{Video, video_text, video_mixed, video_page2, video_hires}

unfoldable pub is_video_write : ℕ → Bool
is_video_write address = between 0x0400 0x0bff address || between 0x2000 0x5fff address

unfoldable pub record_video_write : ℕ → ℕ → Video → Video
record_video_write address value v = record v {
  video_event_count =
      if v.video_event_count == 0xffff then v.video_event_count else u16 (v.video_event_count + 1);
  video_last_address = address;
  video_last_value = value;
}

-- `video_switch` on `video_state`
unfoldable pub video_switch : ℕ → ℕ → ℕ
video_switch address state =
    switch address
      ((0xc050, bit_and state (0xff - video_text))
        ∷ (0xc051, bit_or state video_text)
        ∷ (0xc052, bit_and state (0xff - video_mixed))
        ∷ (0xc053, bit_or state video_mixed)
        ∷ (0xc054, bit_and state (0xff - video_page2))
        ∷ (0xc055, bit_or state video_page2)
        ∷ (0xc056, bit_and state (0xff - video_hires))
        ∷ (0xc057, bit_or state video_hires)
        ∷ [])
      state

-- the read and the write of a switch, $C050-$C057
unfoldable pub video_read : ℕ → Video → ℕ × Video
unfolding video_switch
video_read address v = (
  if get_or v.video_switches (u8 (address - 0xc050)) 0 == 0 then 0x00 else 0x80,
  record v { video_state = video_switch address v.video_state },
)

unfoldable pub video_write : ℕ → ℕ → Video → Video
unfolding video_switch
video_write address value v =
    let index = u8 (address - 0xc050) in
    record v {
      video_state = video_switch address v.video_state;
      video_switches = set v.video_switches index 1;
      video_values = set v.video_values index value;
    }

unfoldable pub bus_video_value : ℕ → Video → ℕ
bus_video_value index v = if ltb index 8 then get_or v.video_values index 0 else 0

-- the accessors
unfoldable pub bus_video_event_count : Video → ℕ
bus_video_event_count v = v.video_event_count

unfoldable pub bus_video_last_address : Video → ℕ
bus_video_last_address v = v.video_last_address

unfoldable pub bus_video_last_value : Video → ℕ
bus_video_last_value v = v.video_last_value

unfoldable pub bus_video_state : Video → ℕ
bus_video_state v = v.video_state
