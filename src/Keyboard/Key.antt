-- ===== src/Keyboard/Key.antt =====
-- `keyboard_key` of drivers/keyboard/keyboard.h: a key is its number, which the driver compares and
-- uses as an index. These are the keys that the code names.
use bare_metal_programming.Prelude.{ℕ}

abbrev pub unknown : ℕ
unknown = 0x0000

abbrev pub escape : ℕ
escape = 0x0001

abbrev pub digit_1 : ℕ
digit_1 = 0x0002

abbrev pub digit_0 : ℕ
digit_0 = 0x000B

abbrev pub minus : ℕ
minus = 0x000C

abbrev pub equals : ℕ
equals = 0x000D

abbrev pub backspace : ℕ
backspace = 0x000E

abbrev pub tab : ℕ
tab = 0x000F

abbrev pub q : ℕ
q = 0x0010

abbrev pub p : ℕ
p = 0x0019

abbrev pub left_bracket : ℕ
left_bracket = 0x001A

abbrev pub right_bracket : ℕ
right_bracket = 0x001B

abbrev pub enter : ℕ
enter = 0x001C

abbrev pub left_ctrl : ℕ
left_ctrl = 0x001D

abbrev pub a : ℕ
a = 0x001E

abbrev pub l : ℕ
l = 0x0026

abbrev pub semicolon : ℕ
semicolon = 0x0027

abbrev pub backtick : ℕ
backtick = 0x0029

abbrev pub left_shift : ℕ
left_shift = 0x002A

abbrev pub back_slash : ℕ
back_slash = 0x002B

abbrev pub z : ℕ
z = 0x002C

abbrev pub m : ℕ
m = 0x0032

abbrev pub comma : ℕ
comma = 0x0033

abbrev pub slash : ℕ
slash = 0x0035

abbrev pub right_shift : ℕ
right_shift = 0x0036

abbrev pub left_alt : ℕ
left_alt = 0x0038

abbrev pub space : ℕ
space = 0x0039

abbrev pub caps_lock : ℕ
caps_lock = 0x003A

abbrev pub right_ctrl : ℕ
right_ctrl = 0xE01D

abbrev pub right_alt : ℕ
right_alt = 0xE038

abbrev pub home : ℕ
home = 0xE047

abbrev pub arrow_up : ℕ
arrow_up = 0xE048

abbrev pub page_up : ℕ
page_up = 0xE049

abbrev pub arrow_left : ℕ
arrow_left = 0xE04B

abbrev pub arrow_right : ℕ
arrow_right = 0xE04D

abbrev pub end : ℕ
end = 0xE04F

abbrev pub arrow_down : ℕ
arrow_down = 0xE050

abbrev pub page_down : ℕ
page_down = 0xE051

abbrev pub insert : ℕ
insert = 0xE052

abbrev pub delete_key : ℕ
delete_key = 0xE053
