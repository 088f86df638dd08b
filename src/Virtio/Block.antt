-- ===== src/Virtio/Block.antt =====
-- virtio_interface.c: the requests of the block device, with the disk of virtio_block_device.c,
-- whose functions never return more than 0: a request is served before its function returns.
use space_emu.Base.{ℕ, ◌-◌, ◌/◌, ◌^◌, Bool, true, false, ◌==◌, ltb, leb, ◌&&◌}
use space_emu.Base.{if◌then◌else◌, List, [], ◌∷◌, ◌++◌, Option, none, some}
use space_emu.Base.Bytes.{from_bytes}
use space_emu.Device.{Reply}
use space_emu.Translate.Vaddr.{take, drop}
use space_emu.Virtio.{World, done, undefined, Exec, pure, ◌>>=◌, ◌>>◌, aborted}
use space_emu.Virtio.{positive}
use space_emu.Virtio.Copy.{virtual_memcpy_to_queue, virtual_memcpy_from_queue, virtual_consume_desc}
use space_emu.Virtio.Notify.{queue_notify}
use space_emu.Virtio.Disk.{Stream, BlockDeviceFile, sector_size, bf_read_async, bf_write_async}

-- `block_request_t`; `buf` is empty after it was freed.
pub record BlockRequest : Type 0 where
  pub type : ℕ
  pub buf : List ℕ
  pub write_size : ℕ
  pub queue_idx : ℕ
  pub desc_idx : ℕ

-- `virtual_io_block_device_t`, without the part in common.
pub record BlockDevice (F : Type 0) : Type 0 where
  pub bf : BlockDeviceFile F
  pub req_in_progress : Bool
  pub req : BlockRequest

-- VIRTIO_BLK_S_OK or VIRTIO_BLK_S_IOERR
abbrev pub block_status : Bool → ℕ
block_status ret = if ret then 0 else 1

-- `fresh n` are the bytes of a buffer from `malloc`.
module _ {F M : Type 0} (stream : Stream F) (min_int : ℕ → ℕ → ℕ)
    (read : World (BlockDevice F × M) → ℕ → ℕ → Reply (World (BlockDevice F × M)))
    (write : World (BlockDevice F × M) → ℕ → List ℕ → Reply (World (BlockDevice F × M)))
    (stale : World (BlockDevice F × M) → List ℕ) (fresh : ℕ → List ℕ) (rounds : ℕ) where
  unfoldable pub set_block : (BlockDevice F → BlockDevice F) → Exec (BlockDevice F × M) Unit
  set_block f w = done (record w { rest = (f w.rest.0, w.rest.1) }) tt

  -- The bytes are copied to the chain, and the chain is returned with `desc_len`.
  unfoldable pub answer : ℕ → ℕ → List ℕ → ℕ → Exec (BlockDevice F × M) Unit
  unfolding virtual_memcpy_to_queue virtual_consume_desc
  answer queue_idx desc_idx buf count w =
      (virtual_memcpy_to_queue min_int read write rounds (stale w) queue_idx desc_idx 0 buf count
          >>= λ copied v.
              done (virtual_consume_desc min_int read write v queue_idx desc_idx count) tt)
        w

  -- `ret` tells whether the disk returned 0.
  unfoldable pub virtual_block_req_end : Bool → Exec (BlockDevice F × M) Unit
  unfolding set_block answer
  virtual_block_req_end ret w =
      let req = w.rest.0.req in
      let whole = take (req.write_size - 1) req.buf ++ (block_status ret ∷ []) in
      elim (req.type == 0) [
        | true ↦ elim (positive req.write_size) [
          | false ↦ undefined
          | true ↦
              (answer req.queue_idx req.desc_idx whole req.write_size
                  >> set_block (λ b. record b { req = record (b.req) { buf = [] } }))
                w
        ]
        | false ↦ elim (req.type == 1) [
          | true ↦ answer req.queue_idx req.desc_idx (block_status ret ∷ []) 1 w
          | false ↦ aborted
        ]
      ]

  -- What follows the call of `read_async`, and of `write_async`; `none` is not defined by C.
  unfoldable pub finish_in : ℕ → Option (Bool × List ℕ) → Exec (BlockDevice F × M) Unit
  unfolding set_block virtual_block_req_end
  finish_in write_size none w = undefined
  finish_in write_size (some (ret, buf)) w =
      (set_block (λ b. record b { req = record (b.req) { buf = buf; write_size = write_size } })
          >> virtual_block_req_end ret)
        w

  unfoldable pub finish_out : Option (Bool × BlockDeviceFile F) → Exec (BlockDevice F × M) Unit
  unfolding set_block virtual_block_req_end
  finish_out none w = undefined
  finish_out (some (ret, bf)) w =
      (set_block (λ b. record b { bf = bf }) >> virtual_block_req_end ret) w

  -- VIRTIO_BLK_T_IN. A size that is not positive ends in a store outside the buffer.
  unfoldable pub recv_in : ℕ → ℕ → Exec (BlockDevice F × M) Unit
  unfolding bf_read_async finish_in
  recv_in sector_num write_size w = elim (positive write_size) [
    | false ↦ undefined
    | true ↦
        finish_in write_size
          (bf_read_async stream w.rest.0.bf sector_num (fresh write_size)
            ((write_size - 1) / sector_size))
          w
  ]

  -- VIRTIO_BLK_T_OUT. The assertions fail if nothing is to be written, and if the readable part is
  -- less than a header, since `malloc` has no buffer of a negative size.
  unfoldable pub recv_out : ℕ → ℕ → ℕ → ℕ → ℕ → Exec (BlockDevice F × M) Unit
  unfolding bf_write_async virtual_memcpy_from_queue finish_out
  recv_out sector_num queue_idx desc_idx read_size write_size w =
      let len = read_size - 16 in
      elim (positive write_size && (leb 16 read_size && ltb read_size (2 ^ 31))) [
        | false ↦ aborted
        | true ↦
            (virtual_memcpy_from_queue min_int read write rounds (stale w) (fresh len) queue_idx
                  desc_idx 16 len
                >>= λ copied v.
                    finish_out
                      (bf_write_async stream v.rest.0.bf sector_num copied.1 (len / sector_size)) v)
              w
      ]

  unfoldable pub serve : ℕ → ℕ → ℕ → ℕ → ℕ → ℕ → Exec (BlockDevice F × M) Unit
  unfolding recv_in recv_out
  serve type sector_num queue_idx desc_idx read_size write_size w = elim (type == 0) [
    | true ↦ recv_in sector_num write_size w
    | false ↦ elim (type == 1) [
      | true ↦ recv_out sector_num queue_idx desc_idx read_size write_size w
      | false ↦ done w tt
    ]
  ]

  -- After the header was copied, if it was; a chain without one is passed over.
  unfoldable pub after_header : ℕ → ℕ → ℕ → ℕ → Bool → List ℕ → Exec (BlockDevice F × M) Bool
  unfolding from_bytes set_block serve
  after_header queue_idx desc_idx read_size write_size false header w = done w true
  after_header queue_idx desc_idx read_size write_size true header w =
      let type = from_bytes (take 4 header) in
      let sector_num = from_bytes (take 8 (drop 8 header)) in
      (set_block (λ b. record b {
        req = record (b.req) { type = type; queue_idx = queue_idx; desc_idx = desc_idx };
      })
          >> serve type sector_num queue_idx desc_idx read_size write_size
          >> pure true)
        w

  -- A request that is already in progress is the return -1.
  unfoldable pub virtual_block_recv_request : ℕ → ℕ → ℕ → ℕ → Exec (BlockDevice F × M) Bool
  unfolding virtual_memcpy_from_queue after_header
  virtual_block_recv_request queue_idx desc_idx read_size write_size w =
      elim w.rest.0.req_in_progress [
        | true ↦ done w false
        | false ↦
            (virtual_memcpy_from_queue min_int read write rounds (stale w) (take 16 (stale w))
                  queue_idx desc_idx 0 16
                >>= λ header.
                    after_header queue_idx desc_idx read_size write_size header.0 header.1)
              w
      ]

  -- For a disk that answers later, which no disk here does.
  unfoldable pub virtual_io_block_req_cb : Bool → Exec (BlockDevice F × M) Unit
  unfolding set_block virtual_block_req_end virtual_block_recv_request queue_notify
  virtual_io_block_req_cb ret =
      virtual_block_req_end ret >> set_block (λ b. record b { req_in_progress = false }) >> λ w.
      queue_notify min_int read stale rounds virtual_block_recv_request w.rest.0.req.queue_idx w
