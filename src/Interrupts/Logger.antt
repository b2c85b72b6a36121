-- ===== src/Interrupts/Logger.antt =====
-- kernel/logger.h and kernel/logger.cpp: messages with a prefix in its own colour.
use bare_metal_programming.Prelude.{ℕ, List, codes}
use bare_metal_programming.Screen
use bare_metal_programming.Output.{Output, on_buffer}
use bare_metal_programming.Output.Insert.{insert_char, insert_string}
use bare_metal_programming.Output.Arrays.{insert_text}

-- `vga_color`
abbrev pub red : ℕ
red = 0x4

abbrev pub light_gray : ℕ
light_gray = 0x7

abbrev pub light_cyan : ℕ
light_cyan = 0xB

abbrev pub light_red : ℕ
light_red = 0xC

abbrev pub yellow : ℕ
yellow = 0xE

unfoldable pub set_prefix_text_and_color : List ℕ → ℕ → ℕ → Output → Output
set_prefix_text_and_color error_type foreground background o =
    let temp = o.buffer.active_color in
    on_buffer (Screen.set_color_code temp)
      (insert_string error_type (on_buffer (Screen.set_color foreground background) o))

unfoldable pub error : Output → Output
error = set_prefix_text_and_color (codes "[ERROR]: ") light_red Screen.black

unfoldable pub warning : Output → Output
warning = set_prefix_text_and_color (codes "[WARNING]: ") yellow Screen.black

unfoldable pub info : Output → Output
info = set_prefix_text_and_color (codes "[INFO]: ") light_cyan Screen.black

unfoldable pub debug : Output → Output
debug = set_prefix_text_and_color (codes "[DEBUG]: ") light_gray Screen.black

-- `panic` up to the halt.
unfoldable pub panic : List ℕ → Output → Output
panic panic_message o = insert_char b'\n' (
    insert_string panic_message
      (insert_text (codes "[PANIC]: ") (on_buffer (Screen.set_color Screen.white red) o)))
