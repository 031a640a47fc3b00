-- ===== src/Daemon/Text.antt =====
-- The texts that the daemon formats with sprintf, as lists of character codes.
use Prim.Native.String.{String}
use Prim.Native.Char.{code}
use userspace_bypass.Prelude.{
  refl, ◌-◌, ℕ, zero, suc, ◌+◌, ◌/◌, ◌%◌, ◌≡◌, List, [], ◌∷◌, ◌++◌, ltb, ◌==◌, if◌then◌else◌,
}

abbrev pub codes : String → List ℕ
codes String.[] = []
codes (String.◌∷◌ c s) = code c ∷ codes s

unfoldable pub hex_digit : ℕ → ℕ
hex_digit d = if ltb d 10 then b'0' + d else b'a' + d - 10

-- Hexadecimal digits in front of `acc`; 16 rounds are enough for 64 bits.
unfoldable pub hex_from : ℕ → ℕ → List ℕ → List ℕ
unfolding hex_digit
hex_from zero n acc = acc
hex_from (suc fuel) n acc =
    let more = hex_from fuel (n / 16) (hex_digit (n % 16) ∷ acc) in if n == 0 then acc else more

-- The conversion %p of the C library that the daemon runs on.
unfoldable pub show_ptr : ℕ → List ℕ
unfolding hex_from
show_ptr p = if p == 0 then codes "(nil)" else codes "0x" ++ hex_from 16 p []

-- The three commands that `check` formats.
unfoldable pub init_cmd : ℕ → List ℕ
unfolding show_ptr
init_cmd rip =
    codes "mkdir -p ./" ++ show_ptr rip ++ codes " && cp -rf ./asm/ ./" ++ show_ptr rip ++ codes "/"

unfoldable pub call_cmd : ℕ → ℕ → List ℕ
unfolding show_ptr
call_cmd tgt rip =
    codes "echo " ++ show_ptr tgt ++ codes " >> ./" ++ show_ptr rip ++ codes "/asm/callee_table.txt"

unfoldable pub ij_cmd : ℕ → ℕ → ℕ → List ℕ
unfolding show_ptr
ij_cmd jump_from tgt rip =
    codes "echo '"
    ++ show_ptr jump_from
    ++ codes " "
    ++ show_ptr tgt
    ++ codes "' >> ./"
    ++ show_ptr rip
    ++ codes "/asm/ij_table.txt"

call_cmd_runs :
    call_cmd 0x55555558f8e0 0x7ffff7de6487
    ≡ codes "echo 0x55555558f8e0 >> ./0x7ffff7de6487/asm/callee_table.txt"
unfolding call_cmd
call_cmd_runs = refl
