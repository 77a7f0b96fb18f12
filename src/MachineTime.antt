-- ===== src/MachineTime.antt =====
-- esp8266_decoder/source/MachineTime.cpp: the working time of the channels of a machine.
pub mod Day
pub mod Store
pub mod Device
pub mod Handlers
