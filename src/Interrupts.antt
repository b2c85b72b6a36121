-- ===== src/Interrupts.antt =====
-- kernel/pic.cpp, kernel/idt.cpp, kernel/logger.* and kernel/exceptions.cpp: the interrupt controller,
-- the gates, the messages and the dispatch of interrupts. A byte written to a port is an entry of a
-- list, the newest first. A handler that does not return gives `halted`.
pub mod Logger
pub mod Gates
pub mod Handlers
pub mod Table
pub mod Report
pub mod Dispatch
pub mod Installed
pub mod Segments
pub mod Tests
use bare_metal_programming.Prelude.{ℕ, ◌-◌, ltb, if◌then◌else◌, ◌==◌, ◌||◌, List, [], ◌∷◌}

abbrev pub Ports : Type 0
Ports = List (ℕ × ℕ)

abbrev pub master_command : ℕ
master_command = 0x20

abbrev pub master_data : ℕ
master_data = 0x21

abbrev pub slave_command : ℕ
slave_command = 0xA0

abbrev pub slave_data : ℕ
slave_data = 0xA1

abbrev pub pic_enable : ℕ
pic_enable = 0x11

abbrev pub master_bit : ℕ
master_bit = 0x04

abbrev pub slave_bit : ℕ
slave_bit = 0x02

abbrev pub x86_mode : ℕ
x86_mode = 0x01

abbrev pub eoi_command : ℕ
eoi_command = 0x20

abbrev pub port_out : ℕ → ℕ → Ports → Ports
port_out port value ports = (port, value) ∷ ports

abbrev pub io_wait : Ports → Ports
io_wait = port_out 0x80 0

-- `master_mask` and `slave_mask`: what the two data ports give at the start.
unfoldable pub pic_remap : ℕ → ℕ → ℕ → ℕ → Ports → Ports
pic_remap master_mask slave_mask offset_1 offset_2 ports =
    let ports = io_wait (port_out master_command pic_enable ports) in
    let ports = io_wait (port_out slave_command pic_enable ports) in
    let ports = io_wait (port_out master_data offset_1 ports) in
    let ports = io_wait (port_out slave_data offset_2 ports) in
    let ports = io_wait (port_out master_data master_bit ports) in
    let ports = io_wait (port_out slave_data slave_bit ports) in
    let ports = io_wait (port_out master_data x86_mode ports) in
    let ports = io_wait (port_out slave_data x86_mode ports) in
    let ports = io_wait (port_out master_data master_mask ports) in
    io_wait (port_out slave_data slave_mask ports)

unfoldable pub send_eoi : ℕ → Ports → Ports
send_eoi vector ports =
    port_out master_command eoi_command
      (if ltb 7 vector then port_out slave_command eoi_command ports else ports)

unfoldable pub mask_all_except_timer_and_keyboard : Ports → Ports
mask_all_except_timer_and_keyboard ports =
    io_wait (port_out slave_data 0xFF (io_wait (port_out master_data 0xFC ports)))

-- What was written to the two ports of a controller, the newest first.
unfoldable pub at_controller : ℕ → ℕ → Ports → Ports
at_controller command data_ [] = []
at_controller command data_ ((port, value) ∷ ports) =
    let rest = at_controller command data_ ports in
    if port == command || port == data_ then (port, value) ∷ rest else rest
