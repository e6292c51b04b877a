-- ===== src/Core/Usb.antt =====
-- airusb/core/UsbTypes.h: the USB values that every layer shares.

use airusb_hub.Base.{ℕ, ◌/◌, ◌%◌, ◌^◌}

pub data Speed : Type 0 where
  none full low high super super_plus super_plus_by2 other : Speed

pub data XferType : Type 0 where
  control isochronous bulk interrupt : XferType

pub data Dir : Type 0 where
  out into : Dir

-- An eight-byte control request.
pub record SetupPacket : Type 0 where
  pub bm_request_type : ℕ
  pub b_request : ℕ
  pub w_value : ℕ
  pub w_index : ℕ
  pub w_length : ℕ

abbrev pub request_type : SetupPacket → ℕ
request_type s = s.bm_request_type / 2 ^ 5 % 2 ^ 2

abbrev pub recipient : SetupPacket → ℕ
recipient s = s.bm_request_type % 2 ^ 5

-- What the descriptors say of an endpoint; `address` has the direction bit.
pub record EndpointModel : Type 0 where
  pub address : ℕ
  pub kind : XferType
  pub max_packet_size : ℕ
  pub interval : ℕ
  pub max_burst : ℕ
  pub mult : ℕ
  pub bytes_per_interval : ℕ

pub record DeviceIdentity : Type 0 where
  pub vendor_id : ℕ
  pub product_id : ℕ
  pub bcd_device : ℕ
  pub device_class : ℕ
  pub sub_class : ℕ
  pub protocol : ℕ
  pub speed : Speed

-- Descriptor types.
abbrev pub desc_device : ℕ
desc_device = 0x01

abbrev pub desc_configuration : ℕ
desc_configuration = 0x02

abbrev pub desc_string : ℕ
desc_string = 0x03

abbrev pub desc_interface : ℕ
desc_interface = 0x04

abbrev pub desc_endpoint : ℕ
desc_endpoint = 0x05

abbrev pub desc_device_qualifier : ℕ
desc_device_qualifier = 0x06

abbrev pub desc_other_speed_config : ℕ
desc_other_speed_config = 0x07

abbrev pub desc_bos : ℕ
desc_bos = 0x0F

abbrev pub desc_ss_endpoint_companion : ℕ
desc_ss_endpoint_companion = 0x30
