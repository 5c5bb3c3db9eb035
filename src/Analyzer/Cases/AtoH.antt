-- ===== src/Analyzer/Cases/AtoH.antt =====
-- ikuzo/service/x/search/asciifold.go: cases of the switch of `foldRune`, the runes of each and what
-- they are written as.
use hub.Prelude.{ℕ, List, [], ◌∷◌, Text, codes}

abbrev pub cases_a : List (List ℕ × Text)
cases_a =
    (
      0xc0 ∷ 0xc1 ∷ 0xc2 ∷ 0xc3 ∷ 0xc4 ∷ 0xc5 ∷ 0x100 ∷ 0x102 ∷ 0x104 ∷ 0x18f ∷ 0x1cd ∷ 0x1de
          ∷ 0x1e0 ∷ 0x1fa ∷ 0x200 ∷ 0x202 ∷ 0x226 ∷ 0x23a ∷ 0x1d00 ∷ 0x1e00 ∷ 0x1ea0 ∷ 0x1ea2
          ∷ 0x1ea4 ∷ 0x1ea6 ∷ 0x1ea8 ∷ 0x1eaa ∷ 0x1eac ∷ 0x1eae ∷ 0x1eb0 ∷ 0x1eb2 ∷ 0x1eb4 ∷ 0x1eb6
          ∷ 0x24b6 ∷ 0xff21 ∷ [],
      codes "A",
    )
    ∷ (
      0xe0 ∷ 0xe1 ∷ 0xe2 ∷ 0xe3 ∷ 0xe4 ∷ 0xe5 ∷ 0x101 ∷ 0x103 ∷ 0x105 ∷ 0x1ce ∷ 0x1df ∷ 0x1e1
          ∷ 0x1fb ∷ 0x201 ∷ 0x203 ∷ 0x227 ∷ 0x250 ∷ 0x259 ∷ 0x25a ∷ 0x1d8f ∷ 0x1d95 ∷ 0x1e01
          ∷ 0x1e9a ∷ 0x1ea1 ∷ 0x1ea3 ∷ 0x1ea5 ∷ 0x1ea7 ∷ 0x1ea9 ∷ 0x1eab ∷ 0x1ead ∷ 0x1eaf ∷ 0x1eb1
          ∷ 0x1eb3 ∷ 0x1eb5 ∷ 0x1eb7 ∷ 0x2090 ∷ 0x2094 ∷ 0x24d0 ∷ 0x2c65 ∷ 0x2c6f ∷ 0xff41 ∷ [],
      codes "a",
    )
    ∷ (0xa732 ∷ [], codes "AA")
    ∷ (0xc6 ∷ 0x1e2 ∷ 0x1fc ∷ 0x1d01 ∷ [], codes "AE")
    ∷ (0xa734 ∷ [], codes "AO")
    ∷ (0xa736 ∷ [], codes "AU")
    ∷ (0xa738 ∷ 0xa73a ∷ [], codes "AV")
    ∷ (0xa73c ∷ [], codes "AY")
    ∷ (0x249c ∷ [], codes "(a)")
    ∷ (0xa733 ∷ [], codes "aa")
    ∷ (0xe6 ∷ 0x1e3 ∷ 0x1fd ∷ 0x1d02 ∷ [], codes "ae")
    ∷ (0xa735 ∷ [], codes "ao")
    ∷ (0xa737 ∷ [], codes "au")
    ∷ (0xa739 ∷ 0xa73b ∷ [], codes "av")
    ∷ (0xa73d ∷ [], codes "ay")
    ∷ (
      0x181 ∷ 0x182 ∷ 0x243 ∷ 0x299 ∷ 0x1d03 ∷ 0x1e02 ∷ 0x1e04 ∷ 0x1e06 ∷ 0x24b7 ∷ 0xff22 ∷ [],
      codes "B",
    )
    ∷ (
      0x180 ∷ 0x183 ∷ 0x253 ∷ 0x1d6c ∷ 0x1d80 ∷ 0x1e03 ∷ 0x1e05 ∷ 0x1e07 ∷ 0x24d1 ∷ 0xff42 ∷ [],
      codes "b",
    )
    ∷ []

abbrev pub cases_c : List (List ℕ × Text)
cases_c =
    (0x249d ∷ [], codes "(b)")
    ∷ (
      0xc7 ∷ 0x106 ∷ 0x108 ∷ 0x10a ∷ 0x10c ∷ 0x187 ∷ 0x23b ∷ 0x297 ∷ 0x1d04 ∷ 0x1e08 ∷ 0x24b8
          ∷ 0xff23 ∷ [],
      codes "C",
    )
    ∷ (
      0xe7 ∷ 0x107 ∷ 0x109 ∷ 0x10b ∷ 0x10d ∷ 0x188 ∷ 0x23c ∷ 0x255 ∷ 0x1e09 ∷ 0x2184 ∷ 0x24d2
          ∷ 0xa73e ∷ 0xa73f ∷ 0xff43 ∷ [],
      codes "c",
    )
    ∷ (0x249e ∷ [], codes "(c)")
    ∷ (
      0xd0 ∷ 0x10e ∷ 0x110 ∷ 0x189 ∷ 0x18a ∷ 0x18b ∷ 0x1d05 ∷ 0x1d06 ∷ 0x1e0a ∷ 0x1e0c ∷ 0x1e0e
          ∷ 0x1e10 ∷ 0x1e12 ∷ 0x24b9 ∷ 0xa779 ∷ 0xff24 ∷ [],
      codes "D",
    )
    ∷ (
      0xf0 ∷ 0x10f ∷ 0x111 ∷ 0x18c ∷ 0x221 ∷ 0x256 ∷ 0x257 ∷ 0x1d6d ∷ 0x1d81 ∷ 0x1d91 ∷ 0x1e0b
          ∷ 0x1e0d ∷ 0x1e0f ∷ 0x1e11 ∷ 0x1e13 ∷ 0x24d3 ∷ 0xa77a ∷ 0xff44 ∷ [],
      codes "d",
    )
    ∷ (0x1c4 ∷ 0x1f1 ∷ [], codes "DZ")
    ∷ (0x1c5 ∷ 0x1f2 ∷ [], codes "Dz")
    ∷ (0x249f ∷ [], codes "(d)")
    ∷ (0x238 ∷ [], codes "db")
    ∷ (0x1c6 ∷ 0x1f3 ∷ 0x2a3 ∷ 0x2a5 ∷ [], codes "dz")
    ∷ (
      0xc8 ∷ 0xc9 ∷ 0xca ∷ 0xcb ∷ 0x112 ∷ 0x114 ∷ 0x116 ∷ 0x118 ∷ 0x11a ∷ 0x18e ∷ 0x190 ∷ 0x204
          ∷ 0x206 ∷ 0x228 ∷ 0x246 ∷ 0x1d07 ∷ 0x1e14 ∷ 0x1e16 ∷ 0x1e18 ∷ 0x1e1a ∷ 0x1e1c ∷ 0x1eb8
          ∷ 0x1eba ∷ 0x1ebc ∷ 0x1ebe ∷ 0x1ec0 ∷ 0x1ec2 ∷ 0x1ec4 ∷ 0x1ec6 ∷ 0x24ba ∷ 0x2c7b ∷ 0xff25
          ∷ [],
      codes "E",
    )
    ∷ []

abbrev pub cases_e : List (List ℕ × Text)
cases_e =
    (
      0xe8 ∷ 0xe9 ∷ 0xea ∷ 0xeb ∷ 0x113 ∷ 0x115 ∷ 0x117 ∷ 0x119 ∷ 0x11b ∷ 0x1dd ∷ 0x205 ∷ 0x207
          ∷ 0x229 ∷ 0x247 ∷ 0x258 ∷ 0x25b ∷ 0x25c ∷ 0x25d ∷ 0x25e ∷ 0x29a ∷ 0x1d08 ∷ 0x1d92 ∷ 0x1d93
          ∷ 0x1d94 ∷ 0x1e15 ∷ 0x1e17 ∷ 0x1e19 ∷ 0x1e1b ∷ 0x1e1d ∷ 0x1eb9 ∷ 0x1ebb ∷ 0x1ebd ∷ 0x1ebf
          ∷ 0x1ec1 ∷ 0x1ec3 ∷ 0x1ec5 ∷ 0x1ec7 ∷ 0x2091 ∷ 0x24d4 ∷ 0x2c78 ∷ 0xff45 ∷ [],
      codes "e",
    )
    ∷ (0x24a0 ∷ [], codes "(e)")
    ∷ (0x191 ∷ 0x1e1e ∷ 0x24bb ∷ 0xa730 ∷ 0xa77b ∷ 0xa7fb ∷ 0xff26 ∷ [], codes "F")
    ∷ (0x192 ∷ 0x1d6e ∷ 0x1d82 ∷ 0x1e1f ∷ 0x1e9b ∷ 0x24d5 ∷ 0xa77c ∷ 0xff46 ∷ [], codes "f")
    ∷ (0x24a1 ∷ [], codes "(f)")
    ∷ (0xfb00 ∷ [], codes "ff")
    ∷ (0xfb03 ∷ [], codes "ffi")
    ∷ (0xfb04 ∷ [], codes "ffl")
    ∷ (0xfb01 ∷ [], codes "fi")
    ∷ (0xfb02 ∷ [], codes "fl")
    ∷ (
      0x11c ∷ 0x11e ∷ 0x120 ∷ 0x122 ∷ 0x193 ∷ 0x1e4 ∷ 0x1e5 ∷ 0x1e6 ∷ 0x1e7 ∷ 0x1f4 ∷ 0x262 ∷ 0x29b
          ∷ 0x1e20 ∷ 0x24bc ∷ 0xa77d ∷ 0xa77e ∷ 0xff27 ∷ [],
      codes "G",
    )
    ∷ (
      0x11d ∷ 0x11f ∷ 0x121 ∷ 0x123 ∷ 0x1f5 ∷ 0x260 ∷ 0x261 ∷ 0x1d77 ∷ 0x1d79 ∷ 0x1d83 ∷ 0x1e21
          ∷ 0x24d6 ∷ 0xa77f ∷ 0xff47 ∷ [],
      codes "g",
    )
    ∷ (0x24a2 ∷ [], codes "(g)")
    ∷ (
      0x124 ∷ 0x126 ∷ 0x21e ∷ 0x29c ∷ 0x1e22 ∷ 0x1e24 ∷ 0x1e26 ∷ 0x1e28 ∷ 0x1e2a ∷ 0x24bd ∷ 0x2c67
          ∷ 0x2c75 ∷ 0xff28 ∷ [],
      codes "H",
    )
    ∷ []

abbrev pub cases_h : List (List ℕ × Text)
cases_h =
    (
      0x125 ∷ 0x127 ∷ 0x21f ∷ 0x265 ∷ 0x266 ∷ 0x2ae ∷ 0x2af ∷ 0x1e23 ∷ 0x1e25 ∷ 0x1e27 ∷ 0x1e29
          ∷ 0x1e2b ∷ 0x1e96 ∷ 0x24d7 ∷ 0x2c68 ∷ 0x2c76 ∷ 0xff48 ∷ [],
      codes "h",
    )
    ∷ (0x1f6 ∷ [], codes "HV")
    ∷ (0x24a3 ∷ [], codes "(h)")
    ∷ (0x195 ∷ [], codes "hv")
    ∷ (
      0xcc ∷ 0xcd ∷ 0xce ∷ 0xcf ∷ 0x128 ∷ 0x12a ∷ 0x12c ∷ 0x12e ∷ 0x130 ∷ 0x196 ∷ 0x197 ∷ 0x1cf
          ∷ 0x208 ∷ 0x20a ∷ 0x26a ∷ 0x1d7b ∷ 0x1e2c ∷ 0x1e2e ∷ 0x1ec8 ∷ 0x1eca ∷ 0x24be ∷ 0xa7fe
          ∷ 0xff29 ∷ [],
      codes "I",
    )
    ∷ (
      0xec ∷ 0xed ∷ 0xee ∷ 0xef ∷ 0x129 ∷ 0x12b ∷ 0x12d ∷ 0x12f ∷ 0x131 ∷ 0x1d0 ∷ 0x209 ∷ 0x20b
          ∷ 0x268 ∷ 0x1d09 ∷ 0x1d62 ∷ 0x1d7c ∷ 0x1d96 ∷ 0x1e2d ∷ 0x1e2f ∷ 0x1ec9 ∷ 0x1ecb ∷ 0x2071
          ∷ 0x24d8 ∷ 0xff49 ∷ [],
      codes "i",
    )
    ∷ (0x132 ∷ [], codes "IJ")
    ∷ (0x24a4 ∷ [], codes "(i)")
    ∷ (0x133 ∷ [], codes "ij")
    ∷ (0x134 ∷ 0x248 ∷ 0x1d0a ∷ 0x24bf ∷ 0xff2a ∷ [], codes "J")
    ∷ (
      0x135 ∷ 0x1f0 ∷ 0x237 ∷ 0x249 ∷ 0x25f ∷ 0x284 ∷ 0x29d ∷ 0x24d9 ∷ 0x2c7c ∷ 0xff4a ∷ [],
      codes "j",
    )
    ∷ (0x24a5 ∷ [], codes "(j)")
    ∷ (
      0x136 ∷ 0x198 ∷ 0x1e8 ∷ 0x1d0b ∷ 0x1e30 ∷ 0x1e32 ∷ 0x1e34 ∷ 0x24c0 ∷ 0x2c69 ∷ 0xa740 ∷ 0xa742
          ∷ 0xa744 ∷ 0xff2b ∷ [],
      codes "K",
    )
    ∷ (
      0x137 ∷ 0x199 ∷ 0x1e9 ∷ 0x29e ∷ 0x1d84 ∷ 0x1e31 ∷ 0x1e33 ∷ 0x1e35 ∷ 0x24da ∷ 0x2c6a ∷ 0xa741
          ∷ 0xa743 ∷ 0xa745 ∷ 0xff4b ∷ [],
      codes "k",
    )
    ∷ (0x24a6 ∷ [], codes "(k)")
    ∷ []
