-- ===== src/Apple/Running.antt =====
-- A test that runs the Apple bus names `serving` on its `unfolding` line.
use sage_apple.Base.{switch}
use sage_apple.Apple.State.{bus_reset}
use sage_apple.Apple.Keyboard.{apple_key_from_uart, keyboard_read_strobe, keyboard_read_data}
use sage_apple.Apple.Video.{is_video_write, record_video_write, video_read, video_write}
use sage_apple.Apple.Card.{language_card_read, language_card_write, language_card_switch}
use sage_apple.Apple.Map.{bus_read, bus_write, toggle_speaker}

unfoldable pub serving : Unit {0}
unfolding switch bus_reset apple_key_from_uart keyboard_read_strobe keyboard_read_data
    is_video_write record_video_write video_read video_write language_card_read language_card_write
    language_card_switch bus_read bus_write toggle_speaker
serving = tt
