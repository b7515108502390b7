-- ===== src/Client/Errors.antt =====
-- client/include/errors.h: the codes that the modelled functions of the client return.

pub data Code : Type 0 where
  success memory_error send_error recv_error queue_overflow unknown_fdt recv_buffer_overflow : Code
