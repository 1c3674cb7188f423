-- ===== src/Tools/Ffs.antt =====
-- tools/ffs_init.c: the descriptors that it writes to ep0 of the USB gadget, and its event loop. The
-- struct members keep their names in snake case; what the calls answer is an argument.
pub mod Ending
use psdk_orangepi.Prelude.{
  ℕ, ◌/◌, ◌%◌, Bool, true, false, not, Option, none, some, List, [], ◌∷◌, ◌++◌, if◌then◌else◌,
}
use psdk_orangepi.Prelude.Int.{ℤ, pos}
use psdk_orangepi.Prelude.Text.{Bytes, codes}
use psdk_orangepi.Proto.{snprintf}

-- Little-endian integers of 16 and 32 bits.
abbrev pub le16 : ℕ → Bytes
le16 n = n % 256 ∷ n / 256 % 256 ∷ []

abbrev pub le32 : ℕ → Bytes
le32 n = n % 256 ∷ n / 256 % 256 ∷ n / 65536 % 256 ∷ n / 16777216 % 256 ∷ []

pub record UsbIntfDesc : Type 0 where
  pub b_length : ℕ
  pub b_descriptor_type : ℕ
  pub b_interface_number : ℕ
  pub b_alternate_setting : ℕ
  pub b_num_endpoints : ℕ
  pub b_interface_class : ℕ
  pub b_interface_sub_class : ℕ
  pub b_interface_protocol : ℕ
  pub i_interface : ℕ

pub record UsbEpDesc : Type 0 where
  pub b_length : ℕ
  pub b_descriptor_type : ℕ
  pub b_endpoint_address : ℕ
  pub bm_attributes : ℕ
  pub w_max_packet_size : ℕ
  pub b_interval : ℕ

-- The packed bytes of a member.
abbrev pub intf_bytes : UsbIntfDesc → Bytes
intf_bytes d =
    d.b_length ∷ d.b_descriptor_type ∷ d.b_interface_number ∷ d.b_alternate_setting
    ∷ d.b_num_endpoints ∷ d.b_interface_class ∷ d.b_interface_sub_class ∷ d.b_interface_protocol
    ∷ d.i_interface ∷ []

abbrev pub ep_bytes : UsbEpDesc → Bytes
ep_bytes d =
    d.b_length
    ∷ d.b_descriptor_type
    ∷ d.b_endpoint_address
    ∷ d.bm_attributes
    ∷ (le16 d.w_max_packet_size ++ d.b_interval ∷ [])

-- `intf_fs` and `intf_hs`
abbrev pub interface_desc : UsbIntfDesc
interface_desc = record {
  b_length = 9;
  b_descriptor_type = 4;
  b_interface_number = 0;
  b_alternate_setting = 0;
  b_num_endpoints = 2;
  b_interface_class = 255;
  b_interface_sub_class = 0;
  b_interface_protocol = 0;
  i_interface = 0;
}

-- An endpoint by its address and its packet size.
abbrev pub endpoint_desc : ℕ → ℕ → UsbEpDesc
endpoint_desc address size = record {
  b_length = 7;
  b_descriptor_type = 5;
  b_endpoint_address = address;
  bm_attributes = 2;
  w_max_packet_size = size;
  b_interval = 0;
}

-- `struct ffs_descriptors`, which has 62 bytes; the magic of FUNCTIONFS_DESCRIPTORS_MAGIC is 1.
abbrev pub descriptors : Bytes
descriptors =
    le32 1
    ++ (le32 62
        ++ (le32 3
            ++ (le32 3
                ++ (intf_bytes interface_desc
                    ++ (ep_bytes (endpoint_desc 131 64)
                        ++ (ep_bytes (endpoint_desc 2 64)
                            ++ (intf_bytes interface_desc
                                ++ (ep_bytes (endpoint_desc 131 512)
                                    ++ ep_bytes (endpoint_desc 2 512)))))))))

-- The head of the strings, of 16 bytes; the magic of FUNCTIONFS_STRINGS_MAGIC is 2.
abbrev pub strings : Bytes
strings = le32 2 ++ (le32 16 ++ (le32 0 ++ le32 0))

pub data FfsEvent : Type 0 where
  bind unbind enable disable setup : FfsEvent
  other : ℕ → FfsEvent

-- What `read` of an event gives.
pub data EventRead : Type 0 where
  interrupted failed : EventRead
  event : FfsEvent → EventRead

-- The calls made on ep0, oldest first.
pub data EpCall : Type 0 where
  open_ep : Bytes → EpCall
  write_ep : Bytes → EpCall
  close_ep : EpCall

-- The loop: whether it has ended, and the calls so far.
unfoldable pub event_loop : List EventRead → List EpCall → Bool × List EpCall
event_loop [] made = (false, made)
event_loop (interrupted ∷ rs) made = event_loop rs made
event_loop (failed ∷ rs) made = (true, made)
event_loop (event setup ∷ rs) made = event_loop rs (made ++ write_ep [] ∷ [])
event_loop (event unbind ∷ rs) made = (true, made)
event_loop (event _ ∷ rs) made = event_loop rs made

-- `ffs_dir` is the argument or the default.
abbrev pub ffs_dir : Option Bytes → Bytes
ffs_dir none = codes "/dev/usb-ffs/bulk1"
ffs_dir (some dir) = dir

-- The exit code, none while the program waits for an event; the answers are those of `open` and of
-- the two writes.
unfoldable pub ffs_main :
    Option Bytes → (opened written strings_written : Bool) → List EventRead → Option ℤ × List EpCall
unfolding event_loop snprintf
ffs_main dir opened written strings_written reads =
    let path = (snprintf 256 (ffs_dir dir ++ codes "/ep0")).text in
    let first = open_ep path ∷ write_ep descriptors ∷ [] in
    let second = first ++ write_ep strings ∷ [] in
    let (ended, made) = event_loop reads second in
    if not opened
    then (some (pos 1), open_ep path ∷ [])
    else if not written
    then (some (pos 1), first ++ close_ep ∷ [])
    else if not strings_written
    then (some (pos 1), second ++ close_ep ∷ [])
    else if ended
    then (some (pos 0), made ++ close_ep ∷ [])
    else (none, made)
