-- ===== src/ModService/Answering.antt =====
-- What the answer to a request for a connection says about the network.
use motorola_external_greybu.Prelude.Errno.{Errno}
