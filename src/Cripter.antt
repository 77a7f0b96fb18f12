-- ===== src/Cripter.antt =====
-- esp8266_decoder/source/MyCrypter.h: the stream cipher of the device protocol. Rand is class
-- MyRand (built with USE_CHACHA20), Codec the text form of a message, Session class MyCripter.
pub mod Rand
pub mod Codec
pub mod Session
