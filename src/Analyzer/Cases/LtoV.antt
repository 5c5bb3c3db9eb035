-- ===== src/Analyzer/Cases/LtoV.antt =====
-- ikuzo/service/x/search/asciifold.go: cases of the switch of `foldRune`, the runes of each and what
-- they are written as.
use hub.Prelude.{ℕ, List, [], ◌∷◌, Text, codes}

abbrev pub cases_l : List (List ℕ × Text)
cases_l =
    (
      0x139 ∷ 0x13b ∷ 0x13d ∷ 0x13f ∷ 0x141 ∷ 0x23d ∷ 0x29f ∷ 0x1d0c ∷ 0x1e36 ∷ 0x1e38 ∷ 0x1e3a
          ∷ 0x1e3c ∷ 0x24c1 ∷ 0x2c60 ∷ 0x2c62 ∷ 0xa746 ∷ 0xa748 ∷ 0xa780 ∷ 0xff2c ∷ [],
      codes "L",
    )
    ∷ (
      0x13a ∷ 0x13c ∷ 0x13e ∷ 0x140 ∷ 0x142 ∷ 0x19a ∷ 0x234 ∷ 0x26b ∷ 0x26c ∷ 0x26d ∷ 0x1d85
          ∷ 0x1e37 ∷ 0x1e39 ∷ 0x1e3b ∷ 0x1e3d ∷ 0x24db ∷ 0x2c61 ∷ 0xa747 ∷ 0xa749 ∷ 0xa781 ∷ 0xff4c
          ∷ [],
      codes "l",
    )
    ∷ (0x1c7 ∷ [], codes "LJ")
    ∷ (0x1efa ∷ [], codes "LL")
    ∷ (0x1c8 ∷ [], codes "Lj")
    ∷ (0x24a7 ∷ [], codes "(l)")
    ∷ (0x1c9 ∷ [], codes "lj")
    ∷ (0x1efb ∷ [], codes "ll")
    ∷ (0x2aa ∷ [], codes "ls")
    ∷ (0x2ab ∷ [], codes "lz")
    ∷ (
      0x19c ∷ 0x1d0d ∷ 0x1e3e ∷ 0x1e40 ∷ 0x1e42 ∷ 0x24c2 ∷ 0x2c6e ∷ 0xa7fd ∷ 0xa7ff ∷ 0xff2d ∷ [],
      codes "M",
    )
    ∷ (
      0x26f ∷ 0x270 ∷ 0x271 ∷ 0x1d6f ∷ 0x1d86 ∷ 0x1e3f ∷ 0x1e41 ∷ 0x1e43 ∷ 0x24dc ∷ 0xff4d ∷ [],
      codes "m",
    )
    ∷ (0x24a8 ∷ [], codes "(m)")
    ∷ (
      0xd1 ∷ 0x143 ∷ 0x145 ∷ 0x147 ∷ 0x14a ∷ 0x19d ∷ 0x1f8 ∷ 0x220 ∷ 0x274 ∷ 0x1d0e ∷ 0x1e44
          ∷ 0x1e46 ∷ 0x1e48 ∷ 0x1e4a ∷ 0x24c3 ∷ 0xff2e ∷ [],
      codes "N",
    )
    ∷ (
      0xf1 ∷ 0x144 ∷ 0x146 ∷ 0x148 ∷ 0x149 ∷ 0x14b ∷ 0x19e ∷ 0x1f9 ∷ 0x235 ∷ 0x272 ∷ 0x273 ∷ 0x1d70
          ∷ 0x1d87 ∷ 0x1e45 ∷ 0x1e47 ∷ 0x1e49 ∷ 0x1e4b ∷ 0x207f ∷ 0x24dd ∷ 0xff4e ∷ [],
      codes "n",
    )
    ∷ (0x1ca ∷ [], codes "NJ")
    ∷ (0x1cb ∷ [], codes "Nj")
    ∷ (0x24a9 ∷ [], codes "(n)")
    ∷ (0x1cc ∷ [], codes "nj")
    ∷ []

abbrev pub cases_o : List (List ℕ × Text)
cases_o =
    (
      0xd2 ∷ 0xd3 ∷ 0xd4 ∷ 0xd5 ∷ 0xd6 ∷ 0xd8 ∷ 0x14c ∷ 0x14e ∷ 0x150 ∷ 0x186 ∷ 0x19f ∷ 0x1a0
          ∷ 0x1d1 ∷ 0x1ea ∷ 0x1ec ∷ 0x1fe ∷ 0x20c ∷ 0x20e ∷ 0x22a ∷ 0x22c ∷ 0x22e ∷ 0x230 ∷ 0x1d0f
          ∷ 0x1d10 ∷ 0x1e4c ∷ 0x1e4e ∷ 0x1e50 ∷ 0x1e52 ∷ 0x1ecc ∷ 0x1ece ∷ 0x1ed0 ∷ 0x1ed2 ∷ 0x1ed4
          ∷ 0x1ed6 ∷ 0x1ed8 ∷ 0x1eda ∷ 0x1edc ∷ 0x1ede ∷ 0x1ee0 ∷ 0x1ee2 ∷ 0x24c4 ∷ 0xa74a ∷ 0xa74c
          ∷ 0xff2f ∷ [],
      codes "O",
    )
    ∷ (
      0xf2 ∷ 0xf3 ∷ 0xf4 ∷ 0xf5 ∷ 0xf6 ∷ 0xf8 ∷ 0x14d ∷ 0x14f ∷ 0x151 ∷ 0x1a1 ∷ 0x1d2 ∷ 0x1eb
          ∷ 0x1ed ∷ 0x1ff ∷ 0x20d ∷ 0x20f ∷ 0x22b ∷ 0x22d ∷ 0x22f ∷ 0x231 ∷ 0x254 ∷ 0x275 ∷ 0x1d16
          ∷ 0x1d17 ∷ 0x1d97 ∷ 0x1e4d ∷ 0x1e4f ∷ 0x1e51 ∷ 0x1e53 ∷ 0x1ecd ∷ 0x1ecf ∷ 0x1ed1 ∷ 0x1ed3
          ∷ 0x1ed5 ∷ 0x1ed7 ∷ 0x1ed9 ∷ 0x1edb ∷ 0x1edd ∷ 0x1edf ∷ 0x1ee1 ∷ 0x1ee3 ∷ 0x2092 ∷ 0x24de
          ∷ 0x2c7a ∷ 0xa74b ∷ 0xa74d ∷ 0xff4f ∷ [],
      codes "o",
    )
    ∷ (0x152 ∷ 0x276 ∷ [], codes "OE")
    ∷ (0xa74e ∷ [], codes "OO")
    ∷ (0x222 ∷ 0x1d15 ∷ [], codes "OU")
    ∷ (0x24aa ∷ [], codes "(o)")
    ∷ (0x153 ∷ 0x1d14 ∷ [], codes "oe")
    ∷ (0xa74f ∷ [], codes "oo")
    ∷ (0x223 ∷ [], codes "ou")
    ∷ (
      0x1a4 ∷ 0x1d18 ∷ 0x1e54 ∷ 0x1e56 ∷ 0x24c5 ∷ 0x2c63 ∷ 0xa750 ∷ 0xa752 ∷ 0xa754 ∷ 0xff30 ∷ [],
      codes "P",
    )
    ∷ (
      0x1a5 ∷ 0x1d71 ∷ 0x1d7d ∷ 0x1d88 ∷ 0x1e55 ∷ 0x1e57 ∷ 0x24df ∷ 0xa751 ∷ 0xa753 ∷ 0xa755
          ∷ 0xa7fc ∷ 0xff50 ∷ [],
      codes "p",
    )
    ∷ (0x24ab ∷ [], codes "(p)")
    ∷ []

abbrev pub cases_q : List (List ℕ × Text)
cases_q =
    (0x24a ∷ 0x24c6 ∷ 0xa756 ∷ 0xa758 ∷ 0xff31 ∷ [], codes "Q")
    ∷ (0x138 ∷ 0x24b ∷ 0x2a0 ∷ 0x24e0 ∷ 0xa757 ∷ 0xa759 ∷ 0xff51 ∷ [], codes "q")
    ∷ (0x24ac ∷ [], codes "(q)")
    ∷ (0x239 ∷ [], codes "qp")
    ∷ (
      0x154 ∷ 0x156 ∷ 0x158 ∷ 0x210 ∷ 0x212 ∷ 0x24c ∷ 0x280 ∷ 0x281 ∷ 0x1d19 ∷ 0x1d1a ∷ 0x1e58
          ∷ 0x1e5a ∷ 0x1e5c ∷ 0x1e5e ∷ 0x24c7 ∷ 0x2c64 ∷ 0xa75a ∷ 0xa782 ∷ 0xff32 ∷ [],
      codes "R",
    )
    ∷ (
      0x155 ∷ 0x157 ∷ 0x159 ∷ 0x211 ∷ 0x213 ∷ 0x24d ∷ 0x27c ∷ 0x27d ∷ 0x27e ∷ 0x27f ∷ 0x1d63
          ∷ 0x1d72 ∷ 0x1d73 ∷ 0x1d89 ∷ 0x1e59 ∷ 0x1e5b ∷ 0x1e5d ∷ 0x1e5f ∷ 0x24e1 ∷ 0xa75b ∷ 0xa783
          ∷ 0xff52 ∷ [],
      codes "r",
    )
    ∷ (0x24ad ∷ [], codes "(r)")
    ∷ (
      0x15a ∷ 0x15c ∷ 0x15e ∷ 0x160 ∷ 0x218 ∷ 0x1e60 ∷ 0x1e62 ∷ 0x1e64 ∷ 0x1e66 ∷ 0x1e68 ∷ 0x24c8
          ∷ 0xa731 ∷ 0xa785 ∷ 0xff33 ∷ [],
      codes "S",
    )
    ∷ (
      0x15b ∷ 0x15d ∷ 0x15f ∷ 0x161 ∷ 0x17f ∷ 0x219 ∷ 0x23f ∷ 0x282 ∷ 0x1d74 ∷ 0x1d8a ∷ 0x1e61
          ∷ 0x1e63 ∷ 0x1e65 ∷ 0x1e67 ∷ 0x1e69 ∷ 0x1e9c ∷ 0x1e9d ∷ 0x24e2 ∷ 0xa784 ∷ 0xff53 ∷ [],
      codes "s",
    )
    ∷ (0x1e9e ∷ [], codes "SS")
    ∷ (0x24ae ∷ [], codes "(s)")
    ∷ (0xdf ∷ [], codes "ss")
    ∷ (0xfb06 ∷ [], codes "st")
    ∷ (
      0x162 ∷ 0x164 ∷ 0x166 ∷ 0x1ac ∷ 0x1ae ∷ 0x21a ∷ 0x23e ∷ 0x1d1b ∷ 0x1e6a ∷ 0x1e6c ∷ 0x1e6e
          ∷ 0x1e70 ∷ 0x24c9 ∷ 0xa786 ∷ 0xff34 ∷ [],
      codes "T",
    )
    ∷ []

abbrev pub cases_t : List (List ℕ × Text)
cases_t =
    (
      0x163 ∷ 0x165 ∷ 0x167 ∷ 0x1ab ∷ 0x1ad ∷ 0x21b ∷ 0x236 ∷ 0x287 ∷ 0x288 ∷ 0x1d75 ∷ 0x1e6b
          ∷ 0x1e6d ∷ 0x1e6f ∷ 0x1e71 ∷ 0x1e97 ∷ 0x24e3 ∷ 0x2c66 ∷ 0xff54 ∷ [],
      codes "t",
    )
    ∷ (0xde ∷ 0xa766 ∷ [], codes "TH")
    ∷ (0xa728 ∷ [], codes "TZ")
    ∷ (0x24af ∷ [], codes "(t)")
    ∷ (0x2a8 ∷ [], codes "tc")
    ∷ (0xfe ∷ 0x1d7a ∷ 0xa767 ∷ [], codes "th")
    ∷ (0x2a6 ∷ [], codes "ts")
    ∷ (0xa729 ∷ [], codes "tz")
    ∷ (
      0xd9 ∷ 0xda ∷ 0xdb ∷ 0xdc ∷ 0x168 ∷ 0x16a ∷ 0x16c ∷ 0x16e ∷ 0x170 ∷ 0x172 ∷ 0x1af ∷ 0x1d3
          ∷ 0x1d5 ∷ 0x1d7 ∷ 0x1d9 ∷ 0x1db ∷ 0x214 ∷ 0x216 ∷ 0x244 ∷ 0x1d1c ∷ 0x1d7e ∷ 0x1e72
          ∷ 0x1e74 ∷ 0x1e76 ∷ 0x1e78 ∷ 0x1e7a ∷ 0x1ee4 ∷ 0x1ee6 ∷ 0x1ee8 ∷ 0x1eea ∷ 0x1eec ∷ 0x1eee
          ∷ 0x1ef0 ∷ 0x24ca ∷ 0xff35 ∷ [],
      codes "U",
    )
    ∷ (
      0xf9 ∷ 0xfa ∷ 0xfb ∷ 0xfc ∷ 0x169 ∷ 0x16b ∷ 0x16d ∷ 0x16f ∷ 0x171 ∷ 0x173 ∷ 0x1b0 ∷ 0x1d4
          ∷ 0x1d6 ∷ 0x1d8 ∷ 0x1da ∷ 0x1dc ∷ 0x215 ∷ 0x217 ∷ 0x289 ∷ 0x1d64 ∷ 0x1d99 ∷ 0x1e73
          ∷ 0x1e75 ∷ 0x1e77 ∷ 0x1e79 ∷ 0x1e7b ∷ 0x1ee5 ∷ 0x1ee7 ∷ 0x1ee9 ∷ 0x1eeb ∷ 0x1eed ∷ 0x1eef
          ∷ 0x1ef1 ∷ 0x24e4 ∷ 0xff55 ∷ [],
      codes "u",
    )
    ∷ (0x24b0 ∷ [], codes "(u)")
    ∷ (0x1d6b ∷ [], codes "ue")
    ∷ (
      0x1b2 ∷ 0x245 ∷ 0x1d20 ∷ 0x1e7c ∷ 0x1e7e ∷ 0x1efc ∷ 0x24cb ∷ 0xa75e ∷ 0xa768 ∷ 0xff36 ∷ [],
      codes "V",
    )
    ∷ (
      0x28b ∷ 0x28c ∷ 0x1d65 ∷ 0x1d8c ∷ 0x1e7d ∷ 0x1e7f ∷ 0x24e5 ∷ 0x2c71 ∷ 0x2c74 ∷ 0xa75f ∷ 0xff56
          ∷ [],
      codes "v",
    )
    ∷ (0xa760 ∷ [], codes "VY")
    ∷ []
