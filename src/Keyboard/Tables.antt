-- ===== src/Keyboard/Tables.antt =====
-- The tables of the keyboard driver (drivers/internal/keyboard_key_list_n_map.h and
-- drivers/keyboard/keyboard.cpp, lines 32 to 100).
use bare_metal_programming.Prelude.{ℕ, Bool, if◌then◌else◌, List, [], ◌∷◌, get_or, set, replicate}

-- Pairs of an entry and its index, in the order of the source.
abbrev key_list : List (ℕ × ℕ)
key_list =
    (0x0001, 0x01)
    ∷ (0x0002, 0x02)
    ∷ (0x0003, 0x03)
    ∷ (0x0004, 0x04)
    ∷ (0x0005, 0x05)
    ∷ (0x0006, 0x06)
    ∷ (0x0007, 0x07)
    ∷ (0x0008, 0x08)
    ∷ (0x0009, 0x09)
    ∷ (0x000A, 0x0A)
    ∷ (0x000B, 0x0B)
    ∷ (0x000C, 0x0C)
    ∷ (0x000D, 0x0D)
    ∷ (0x000E, 0x0E)
    ∷ (0x000F, 0x0F)
    ∷ (0x0010, 0x10)
    ∷ (0x0011, 0x11)
    ∷ (0x0012, 0x12)
    ∷ (0x0013, 0x13)
    ∷ (0x0014, 0x14)
    ∷ (0x0015, 0x15)
    ∷ (0x0016, 0x16)
    ∷ (0x0017, 0x17)
    ∷ (0x0018, 0x18)
    ∷ (0x0019, 0x19)
    ∷ (0x001A, 0x1A)
    ∷ (0x001B, 0x1B)
    ∷ (0x001C, 0x1C)
    ∷ (0x001D, 0x1D)
    ∷ (0x001E, 0x1E)
    ∷ (0x001F, 0x1F)
    ∷ (0x0020, 0x20)
    ∷ (0x0021, 0x21)
    ∷ (0x0022, 0x22)
    ∷ (0x0023, 0x23)
    ∷ (0x0024, 0x24)
    ∷ (0x0025, 0x25)
    ∷ (0x0026, 0x26)
    ∷ (0x0027, 0x27)
    ∷ (0x0028, 0x28)
    ∷ (0x0029, 0x29)
    ∷ (0x002A, 0x2A)
    ∷ (0x002B, 0x2B)
    ∷ (0x002C, 0x2C)
    ∷ (0x002D, 0x2D)
    ∷ (0x002E, 0x2E)
    ∷ (0x002F, 0x2F)
    ∷ (0x0030, 0x30)
    ∷ (0x0031, 0x31)
    ∷ (0x0032, 0x32)
    ∷ (0x0033, 0x33)
    ∷ (0x0034, 0x34)
    ∷ (0x0035, 0x35)
    ∷ (0x0036, 0x36)
    ∷ (0x0038, 0x38)
    ∷ (0x0039, 0x39)
    ∷ (0x003A, 0x3A)
    ∷ (0x003B, 0x3B)
    ∷ (0x003C, 0x3C)
    ∷ (0x003D, 0x3D)
    ∷ (0x003E, 0x3E)
    ∷ (0x003F, 0x3F)
    ∷ (0x0040, 0x40)
    ∷ (0x0041, 0x41)
    ∷ (0x0042, 0x42)
    ∷ (0x0043, 0x43)
    ∷ (0x0044, 0x44)
    ∷ (0x0057, 0x57)
    ∷ (0x0058, 0x58)
    ∷ []

abbrev extended_key_mapping : List (ℕ × ℕ)
extended_key_mapping =
    (0xE01D, 0x1D)
    ∷ (0xE038, 0x38)
    ∷ (0xE047, 0x47)
    ∷ (0xE048, 0x48)
    ∷ (0xE049, 0x49)
    ∷ (0xE04B, 0x4B)
    ∷ (0xE04D, 0x4D)
    ∷ (0xE04F, 0x4F)
    ∷ (0xE050, 0x50)
    ∷ (0xE051, 0x51)
    ∷ (0xE052, 0x52)
    ∷ (0xE053, 0x53)
    ∷ []

abbrev normal_key_mapping : List (ℕ × ℕ)
normal_key_mapping =
    (0, 0x01)
    ∷ (49, 0x02)
    ∷ (50, 0x03)
    ∷ (51, 0x04)
    ∷ (52, 0x05)
    ∷ (53, 0x06)
    ∷ (54, 0x07)
    ∷ (55, 0x08)
    ∷ (56, 0x09)
    ∷ (57, 0x0A)
    ∷ (48, 0x0B)
    ∷ (45, 0x0C)
    ∷ (61, 0x0D)
    ∷ (0, 0x0E)
    ∷ (9, 0x0F)
    ∷ (113, 0x10)
    ∷ (119, 0x11)
    ∷ (101, 0x12)
    ∷ (114, 0x13)
    ∷ (116, 0x14)
    ∷ (121, 0x15)
    ∷ (117, 0x16)
    ∷ (105, 0x17)
    ∷ (111, 0x18)
    ∷ (112, 0x19)
    ∷ (91, 0x1A)
    ∷ (93, 0x1B)
    ∷ (10, 0x1C)
    ∷ (0, 0x1D)
    ∷ (97, 0x1E)
    ∷ (115, 0x1F)
    ∷ (100, 0x20)
    ∷ (102, 0x21)
    ∷ (103, 0x22)
    ∷ (104, 0x23)
    ∷ (106, 0x24)
    ∷ (107, 0x25)
    ∷ (108, 0x26)
    ∷ (59, 0x27)
    ∷ (39, 0x28)
    ∷ (96, 0x29)
    ∷ (0, 0x2A)
    ∷ (92, 0x2B)
    ∷ (122, 0x2C)
    ∷ (120, 0x2D)
    ∷ (99, 0x2E)
    ∷ (118, 0x2F)
    ∷ (98, 0x30)
    ∷ (110, 0x31)
    ∷ (109, 0x32)
    ∷ (44, 0x33)
    ∷ (46, 0x34)
    ∷ (47, 0x35)
    ∷ (0, 0x36)
    ∷ (0, 0x38)
    ∷ (32, 0x39)
    ∷ (0, 0x3A)
    ∷ []

abbrev shifted_key_mapping : List (ℕ × ℕ)
shifted_key_mapping =
    (0, 0x01)
    ∷ (33, 0x02)
    ∷ (64, 0x03)
    ∷ (35, 0x04)
    ∷ (36, 0x05)
    ∷ (37, 0x06)
    ∷ (94, 0x07)
    ∷ (38, 0x08)
    ∷ (42, 0x09)
    ∷ (40, 0x0A)
    ∷ (41, 0x0B)
    ∷ (95, 0x0C)
    ∷ (43, 0x0D)
    ∷ (0, 0x0E)
    ∷ (0, 0x0F)
    ∷ (81, 0x10)
    ∷ (87, 0x11)
    ∷ (69, 0x12)
    ∷ (82, 0x13)
    ∷ (84, 0x14)
    ∷ (89, 0x15)
    ∷ (85, 0x16)
    ∷ (73, 0x17)
    ∷ (79, 0x18)
    ∷ (80, 0x19)
    ∷ (123, 0x1A)
    ∷ (125, 0x1B)
    ∷ (10, 0x1C)
    ∷ (0, 0x1D)
    ∷ (65, 0x1E)
    ∷ (83, 0x1F)
    ∷ (68, 0x20)
    ∷ (70, 0x21)
    ∷ (71, 0x22)
    ∷ (72, 0x23)
    ∷ (74, 0x24)
    ∷ (75, 0x25)
    ∷ (76, 0x26)
    ∷ (58, 0x27)
    ∷ (34, 0x28)
    ∷ (126, 0x29)
    ∷ (0, 0x2A)
    ∷ (124, 0x2B)
    ∷ (90, 0x2C)
    ∷ (88, 0x2D)
    ∷ (67, 0x2E)
    ∷ (86, 0x2F)
    ∷ (66, 0x30)
    ∷ (78, 0x31)
    ∷ (77, 0x32)
    ∷ (60, 0x33)
    ∷ (62, 0x34)
    ∷ (63, 0x35)
    ∷ (0, 0x36)
    ∷ (0, 0x38)
    ∷ (32, 0x39)
    ∷ (0, 0x3A)
    ∷ []

abbrev pub normal_key_map_size : ℕ
normal_key_map_size = 128

-- What the constructors of the tables do, entry by entry.
unfoldable pub fill_table : List ℕ → List (ℕ × ℕ) → List ℕ
fill_table entries [] = entries
fill_table entries ((entry, key_code) ∷ more) = fill_table (set entries key_code entry) more

unfoldable pub normal_key_map : List ℕ
normal_key_map = fill_table (replicate normal_key_map_size 0) key_list

unfoldable pub extended_key_table : List ℕ
extended_key_table = fill_table (replicate normal_key_map_size 0) extended_key_mapping

unfoldable pub normal_characters_table : List ℕ
normal_characters_table = fill_table (replicate normal_key_map_size 0) normal_key_mapping

unfoldable pub shifted_characters_table : List ℕ
shifted_characters_table = fill_table (replicate normal_key_map_size 0) shifted_key_mapping

unfoldable pub map_scancode_set_1_key : ℕ → Bool → ℕ
map_scancode_set_1_key key_code extended =
    if extended then get_or extended_key_table key_code 0 else get_or normal_key_map key_code 0

unfoldable pub get_normal_character : ℕ → ℕ
get_normal_character key = get_or normal_characters_table key 0

unfoldable pub get_shifted_character : ℕ → ℕ
get_shifted_character key = get_or shifted_characters_table key 0
