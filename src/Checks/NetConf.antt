-- ===== src/Checks/NetConf.antt =====
-- scripts/lint_network_conf.py on a small file.
use ws_pi.Base.{ℕ, ◌≡◌, ◌↔◌, refl, [], ◌∷◌, ◌++◌, Bool, true, false}
use ws_pi.Base.Bytes.{IpAddr, IsIpAddr}
use ws_pi.Base.Texts.{Text, strip, before, behind, occurs}
use ws_pi.Base.Texts.Split.{Free}
use ws_pi.NetConf.{validate_ip, validate_hostname, is_valid_mac_byte}
use ws_pi.NetConf.Lint.{lint, key_of, classify_kv, cut_comment, parse_line}
use ws_pi.NetConf.Sound.{IsConsistent, IsUsable, lint-IsUsable}
use ws_pi.NetConf.Addresses.{dotted, validate_ip-iff-dotted}
use ws_pi.NetConf.Trailing.{Unknown, lint-trailing}

-- The ASCII digits only.
abbrev ascii : ℕ → Bool
ascii c = false

-- The magic line, an address with a comment, a netmask, a gateway and a host name.
abbrev lab_conf : Text
lab_conf =
    35 ∷ 32 ∷ 87 ∷ 83 ∷ 80 ∷ 73 ∷ 53 ∷ 67 ∷ 70 ∷ 71 ∷ 10 ∷ 105 ∷ 112 ∷ 61 ∷ 49 ∷ 48 ∷ 46 ∷ 48 ∷ 46
    ∷ 48 ∷ 46 ∷ 50 ∷ 32 ∷ 35 ∷ 32 ∷ 108 ∷ 97 ∷ 98 ∷ 10 ∷ 110 ∷ 101 ∷ 116 ∷ 109 ∷ 97 ∷ 115 ∷ 107 ∷ 61
    ∷ 50 ∷ 53 ∷ 53 ∷ 46 ∷ 50 ∷ 53 ∷ 53 ∷ 46 ∷ 50 ∷ 53 ∷ 53 ∷ 46 ∷ 48 ∷ 10 ∷ 103 ∷ 97 ∷ 116 ∷ 101
    ∷ 119 ∷ 97 ∷ 121 ∷ 61 ∷ 49 ∷ 48 ∷ 46 ∷ 48 ∷ 46 ∷ 48 ∷ 46 ∷ 49 ∷ 10 ∷ 104 ∷ 111 ∷ 115 ∷ 116 ∷ 110
    ∷ 97 ∷ 109 ∷ 101 ∷ 61 ∷ 112 ∷ 105 ∷ 45 ∷ 53 ∷ 10 ∷ []

lab_conf-ok : (lint ascii lab_conf).ok ≡ true
unfolding lint parse_line cut_comment strip classify_kv key_of before behind occurs validate_ip
    validate_hostname
lab_conf-ok = refl

lint-IsUsable_example :
    ((lint ascii lab_conf).errors ≡ [])
    × IsConsistent ascii (lint ascii lab_conf).config
    × IsUsable ascii (lint ascii lab_conf).config
lint-IsUsable_example = lint-IsUsable ascii lab_conf lab_conf-ok

-- `xq=1`
abbrev noise : Text
noise = 120 ∷ 113 ∷ 61 ∷ 49 ∷ []

noise-Unknown : Unknown noise
unfolding cut_comment strip key_of before occurs
noise-Unknown = (refl, refl)

noise-Free : Free 10 noise
noise-Free = (refl, (refl, (refl, (refl, tt))))

lint-trailing_example :
    lint ascii (lab_conf ++ (10 ∷ (noise ++ (10 ∷ 0 ∷ 255 ∷ [])))) ≡ lint ascii lab_conf
lint-trailing_example =
    lint-trailing ascii lab_conf noise (0 ∷ 255 ∷ []) lab_conf-ok noise-Free noise-Unknown

-- `10.0.0.2`
abbrev lab_address : Text
lab_address = 49 ∷ 48 ∷ 46 ∷ 48 ∷ 46 ∷ 48 ∷ 46 ∷ 50 ∷ []

validate_ip-iff-dotted_example :
    (validate_ip lab_address ≡ true) ↔ ((ip : IpAddr) × IsIpAddr ip × (lab_address ≡ dotted ip))
validate_ip-iff-dotted_example = validate_ip-iff-dotted lab_address

-- `10.0.0.02` has a leading zero.
leading_zero_rejected : validate_ip (49 ∷ 48 ∷ 46 ∷ 48 ∷ 46 ∷ 48 ∷ 46 ∷ 48 ∷ 50 ∷ []) ≡ false
unfolding validate_ip
leading_zero_rejected = refl

-- `+f` is taken as a byte of a MAC address.
signed_byte_accepted : is_valid_mac_byte ascii (43 ∷ 102 ∷ []) ≡ true
unfolding is_valid_mac_byte
signed_byte_accepted = refl
