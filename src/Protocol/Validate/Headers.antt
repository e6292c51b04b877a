-- ===== src/Protocol/Validate/Headers.antt =====
-- Which headers are admitted.
use airusb_hub.Base.{ℕ, ◌≤◌, ◌<◌, ◌≡◌, ◌≢◌, ◌⊎◌, bit_and}
use airusb_hub.Protocol.Codec.Headers.{Header}
use airusb_hub.Protocol.Validate.{Limits}

abbrev pub OnDataPlane : ℕ → Type 0
OnDataPlane t = (0x40 ≤ t) × (t ≤ 0x4F)

abbrev pub OffDataPlane : ℕ → Type 0
OffDataPlane t = (t < 0x40) ⊎ (0x4F < t)

-- The types that are not defined.
abbrev pub IsUnknown : ℕ → Type 0
IsUnknown t =
    (t ≡ 0)
    ⊎ ((0x07 ≤ t) × (t ≤ 0x0F))
    ⊎ ((0x16 ≤ t) × (t ≤ 0x1F))
    ⊎ ((0x27 ≤ t) × (t ≤ 0x2F))
    ⊎ ((0x37 ≤ t) × (t ≤ 0x3F))
    ⊎ (0x45 ≤ t)

-- The defined types without a fixed body: GOODBYE, DATA, and those of pairing and the device list,
-- of attaching and of the device's control.
abbrev pub HasNoFixed : ℕ → Type 0
HasNoFixed t =
    (t ≡ 0x05)
    ⊎ (t ≡ 0x44)
    ⊎ ((0x10 ≤ t) × (t ≤ 0x15))
    ⊎ ((0x20 ≤ t) × (t ≤ 0x26))
    ⊎ ((0x30 ≤ t) × (t ≤ 0x36))

-- The length has room for the fixed body: 56 bytes for HELLO and HELLO_OK, 24 for PING and PONG, 8
-- for ERROR, 40 for SUBMIT and COMPLETE, 16 for CANCEL, 8 for CANCEL_ACK.
abbrev pub HasRoom : ℕ → ℕ → Type 0
HasRoom t len =
    HasNoFixed t
    ⊎ (((t ≡ 0x01) ⊎ (t ≡ 0x02)) × (56 ≤ len))
    ⊎ (((t ≡ 0x03) ⊎ (t ≡ 0x04)) × (24 ≤ len))
    ⊎ ((t ≡ 0x06) × (8 ≤ len))
    ⊎ (((t ≡ 0x40) ⊎ (t ≡ 0x41)) × (40 ≤ len))
    ⊎ ((t ≡ 0x42) × (16 ≤ len))
    ⊎ ((t ≡ 0x43) × (8 ≤ len))

-- HELLO_OK, PONG, ERROR, PAIR_RESULT, ATTACH_OK, DETACH_OK, DEVICE_GONE, CTRL_ACK, COMPLETE and
-- CANCEL_ACK.
abbrev pub IsResponse : ℕ → Type 0
IsResponse t =
    (t ≡ 0x02)
    ⊎ (t ≡ 0x04)
    ⊎ (t ≡ 0x06)
    ⊎ (t ≡ 0x12)
    ⊎ (t ≡ 0x21)
    ⊎ (t ≡ 0x24)
    ⊎ (t ≡ 0x25)
    ⊎ (t ≡ 0x36)
    ⊎ (t ≡ 0x41)
    ⊎ (t ≡ 0x43)

-- The body is there whole and holds the fixed part, or the type is unknown and not of the data
-- plane.
abbrev pub BodyFits : Header → ℕ → Type 0
BodyFits h available =
    (IsUnknown h.type × OffDataPlane h.type)
    ⊎ (HasRoom h.type h.body_len × (h.body_len ≤ available))

pub record IsAdmitted (h : Header) (available : ℕ) (lim : Limits) : Type 0 where
  pub flags_clear : (bit_and h.flags 0xF0 ≡ 0) ⊎ OffDataPlane h.type
  pub total_within : h.total_len ≤ lim.max_transfer_bytes
  pub offset_within : h.seg_offset ≤ h.total_len
  pub body_fits : BodyFits h available
  pub status_legal : (h.status ≡ 0) ⊎ (IsResponse h.type × (h.status ≢ 0x000F))
