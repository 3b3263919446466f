-- ===== src/Uapi/Entries.antt =====
-- The branches of `userspace_get_device` in ipc-uapi.h for the keys of the device.
use router1_app.Prelude.{bit_or, Option, none, some, Bytes, codes}
use router1_app.Libc.{strcmp_eq}
use router1_app.Encoding.Hex.{key_from_hex}
use router1_app.Containers.{Device}
use router1_app.Containers.DeviceFlag
use router1_app.Config.Line.{add_flag}
use router1_app.Uapi.Wire.{Daemon}
use router1_app.Uapi.Steps.{Step, bind_step, num, when_key, accepted_key, next}

-- The branches with `!peer`, in their order; `none` if the key is none of them.
unfoldable pub device_entry : Daemon → Bytes → Bytes → Device → Option (Step Device)
unfolding strcmp_eq
device_entry n key value d =
    when_key (strcmp_eq key (codes "private_key"))
      (some (
        bind_step (accepted_key (key_from_hex d.private_key value)) (λ k. next (
          add_flag (record d { private_key = k; public_key = n.generate_public k })
            (bit_or DeviceFlag.has_private_key DeviceFlag.has_public_key)))))
      (when_key (strcmp_eq key (codes "listen_port"))
        (some (
          bind_step (num 0xffff value)
            (λ v. next (add_flag (record d { listen_port = v }) DeviceFlag.has_listen_port))))
        (when_key (strcmp_eq key (codes "fwmark"))
          (some (
            bind_step (num 0xffffffff value)
              (λ v. next (add_flag (record d { fwmark = v }) DeviceFlag.has_fwmark))))
          (when_key (strcmp_eq key (codes "jc"))
            (some (
              bind_step (num 0xffff value)
                (λ v. next (add_flag (record d { junk_packet_count = v }) DeviceFlag.has_jc))))
            (when_key (strcmp_eq key (codes "jmin"))
              (some (
                bind_step (num 0xffff value) (λ v.
                  next (add_flag (record d { junk_packet_min_size = v }) DeviceFlag.has_jmin))))
              (when_key (strcmp_eq key (codes "jmax"))
                (some (
                  bind_step (num 0xffff value) (λ v.
                    next (add_flag (record d { junk_packet_max_size = v }) DeviceFlag.has_jmax))))
                (when_key (strcmp_eq key (codes "s1"))
                  (some (
                    bind_step (num 0xffff value) (λ v.
                      next (add_flag (record d { init_packet_junk_size = v }) DeviceFlag.has_s1))))
                  (when_key (strcmp_eq key (codes "s2"))
                    (some (
                      bind_step (num 0xffff value) (λ v.
                        next (
                          add_flag (record d { response_packet_junk_size = v })
                            DeviceFlag.has_s2))))
                    (when_key (strcmp_eq key (codes "s3"))
                      (some (
                        bind_step (num 0xffff value) (λ v. next (
                          add_flag (record d { cookie_reply_packet_junk_size = v })
                            DeviceFlag.has_s3))))
                      (when_key (strcmp_eq key (codes "s4"))
                        (some (
                          bind_step (num 0xffff value) (λ v. next (
                            add_flag (record d { transport_packet_junk_size = v })
                              DeviceFlag.has_s4))))
                        (when_key (strcmp_eq key (codes "h1"))
                          (some (
                            next (
                              add_flag (record d { init_packet_magic_header = some value })
                                DeviceFlag.has_h1)))
                          (when_key (strcmp_eq key (codes "h2"))
                            (some (
                              next (
                                add_flag (record d { response_packet_magic_header = some value })
                                  DeviceFlag.has_h2)))
                            (when_key (strcmp_eq key (codes "h3"))
                              (some (
                                next (
                                  add_flag (record d { underload_packet_magic_header = some value })
                                    DeviceFlag.has_h3)))
                              (when_key (strcmp_eq key (codes "h4"))
                                (some (
                                  next (
                                    add_flag
                                      (record d { transport_packet_magic_header = some value })
                                      DeviceFlag.has_h4)))
                                (when_key (strcmp_eq key (codes "i1"))
                                  (some (
                                    next
                                      (add_flag (record d { i1 = some value }) DeviceFlag.has_i1)))
                                  (when_key (strcmp_eq key (codes "i2"))
                                    (some (
                                      next (
                                        add_flag (record d { i2 = some value }) DeviceFlag.has_i2)))
                                    (when_key (strcmp_eq key (codes "i3"))
                                      (some (
                                        next (
                                          add_flag (record d { i3 = some value })
                                            DeviceFlag.has_i3)))
                                      (when_key (strcmp_eq key (codes "i4"))
                                        (some (
                                          next (
                                            add_flag (record d { i4 = some value })
                                              DeviceFlag.has_i4)))
                                        (when_key (strcmp_eq key (codes "i5"))
                                          (some (
                                            next (
                                              add_flag (record d { i5 = some value })
                                                DeviceFlag.has_i5)))
                                          none))))))))))))))))))
