-- ===== src/Ble/Buffer/Cursors.antt =====
-- Laws of the cursor map: reading a cursor after writing one.
use webcam_direct_linux.Prelude.{◌≡◌, ◌≢◌, refl, [], list_key, number_key}
use webcam_direct_linux.HashMap.{get-insert_self, get-insert_ne, get-remove_ne, get-remove_self}
use webcam_direct_linux.Ble.Api.{Address}
use webcam_direct_linux.Ble.Buffer.{
  BufferCursor, MobileBufferMap, get_cursors, set_cursors, remove_mobile,
}

pub get_cursors-set_self :
    (m : MobileBufferMap) (addr : Address) (c : BufferCursor)
    → get_cursors (set_cursors m addr c) addr ≡ c
unfolding get_cursors set_cursors
get_cursors-set_self m addr c = rw (get-insert_self m.mobile_buffer_status addr c)

pub get_cursors-set_ne :
    (m : MobileBufferMap) (addr other : Address) (c : BufferCursor)
    → addr ≢ other
    → get_cursors (set_cursors m addr c) other ≡ get_cursors m other
unfolding get_cursors set_cursors
get_cursors-set_ne m addr other c h = rw (get-insert_ne m.mobile_buffer_status addr other c h)

pub chunk_len-set :
    (m : MobileBufferMap) (addr : Address) (c : BufferCursor)
    → (set_cursors m addr c).chunk_len ≡ m.chunk_len
unfolding set_cursors
chunk_len-set m addr c = refl

pub get_cursors-remove_ne :
    (m : MobileBufferMap) (addr other : Address)
    → addr ≢ other
    → get_cursors (remove_mobile addr m) other ≡ get_cursors m other
unfolding get_cursors remove_mobile
get_cursors-remove_ne m addr other h = rw (get-remove_ne m.mobile_buffer_status addr other h)

pub get_cursors-remove_self :
    (m : MobileBufferMap) (addr : Address)
    → get_cursors (remove_mobile addr m) addr ≡ record { writer = []; reader = [] }
unfolding get_cursors remove_mobile
get_cursors-remove_self m addr = rw (get-remove_self m.mobile_buffer_status addr)
