-- ===== src/Relay/Rand.antt =====
-- relay.cpp, class MyRand: a generator of one 32-bit word, which the relay and the server step
-- together, and the sums of masked bytes that stand for a checksum. DEF_RAND is defined by a header
-- that is not part of the repository, and is an argument.
use java_io_tserver.Common.{ℕ, ◌+◌, ◌*◌, ◌/◌, ◌%◌, ◌^◌, [], ◌∷◌, bit_and, bit_xor}
use java_io_tserver.Common.Text.{Bytes}

unfoldable pub rand : ℕ → ℕ
rand a =
    let b = bit_xor a (a * 2 ^ 13 % 2 ^ 32) in
    let c = bit_xor b (b / 2 ^ 17) in bit_xor c (c * 2 ^ 5 % 2 ^ 32)

unfoldable pub srand : ℕ → ℕ → ℕ
srand def_rand i = bit_xor i def_rand

unfoldable pub correct : ℕ → ℕ → ℕ
correct i a = bit_xor i a

-- The loop that adds the bytes of one text to `contr_sum`, with the generator.
unfoldable pub sum_on : Bytes → ℕ × ℕ → ℕ × ℕ
sum_on [] (sum, a) = (sum, a)
sum_on (c ∷ cs) (sum, a) = sum_on cs (sum + bit_xor c (bit_and (rand a) 0xff), rand a)
