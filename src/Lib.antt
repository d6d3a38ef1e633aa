-- ===== src/Lib.antt =====
-- Greybus for Motorola modules, a set of Linux kernel drivers: a model of the parts that decide, and the
-- theorems that make them correct.
--
-- An interface (a module that is plugged in) sends a manifest. manifest.c reads it and creates bundles
-- (bundle.c) and connections (connection.c) on a host device. Each connection is bound to a protocol of
-- the list that protocol.c keeps, and negotiates its version. The model has these parts:
--
--   * Prelude: names that all modules share, Boolean tests, lists, and `Errno`, the kernel's error
--     numbers by name (their values come from the kernel's headers).
--   * Protocol: protocol.c. `Registry` is the list `gb_protocols` with the calls made to the kernel's
--     module reference counts; `find`, `find_latest`, `register`, `deregister`, `get`, `get_latest`,
--     `put`, `get_version` and `version_negotiate` are the functions of the same names behind
--     `gb_protocol_`. The spin lock makes each of them one step. `try_module_get` and the answers of
--     the module are parameters.
--   * Connection: connection.c. Its own file has `gb_connection_create` and the searches,
--     Connection/Life `gb_connection_init` and `gb_connection_exit`, whose labels for errors are
--     functions and whose calls of other parts are answered by a parameter; a negotiation of the version may bind
--     another protocol, and Connection/Accounting
--     `gb_connection_error_accounting`. Memory allocations succeed or fail by a parameter, and
--     `ida_simple_get` is a parameter whose documented behaviour `IdaLaw` states. `Paired` leaves out the
--     firmware protocol (firmware.c), which skips only the message of the disconnection, and the host driver
--     es2.c, which enables CPorts and has no function to disable them.
--   * Manifest: manifest.c over a memory of bytes, with `gb_bundle_create` and `gb_bundle_destroy` of
--     bundle.c. `parse` is `gb_manifest_parse`. Its loop over the descriptors has the number of bytes
--     for fuel, which is enough since a descriptor has four bytes at least; the loop over the bundles
--     has the number of descriptors, since each round releases one.
--   * Interface: interface.c. The answers of the parts that `gb_interface_init` calls are a parameter; of a
--     bundle it has what the loops over bundles and connections use.
--   * Svc: svc.c. `Svc` has the fields of `struct gb_svc`, the interfaces of its host device, the routes that
--     the SVC was asked for and the queue of requests that wait. Svc/Hotplug has `gb_svc_process_intf_hotplug`,
--     whose labels for errors are functions, and Svc/Requests `gb_svc_request_recv` with what it calls; the
--     queue runs one work at a time. `ida_simple_get` and the answers of the SVC are parameters; a route that the SVC fails to destroy stays in
--     `undestroyed`.
--   * Nw: mods_nw.c. `Network` holds the registered filters and the routes of each interface; the
--     functions have the names of the source without `mods_nw_`. The drivers' `get_protocol` and
--     `message_send` and the filters' handlers are parameters, and so is the outcome of each
--     allocation. A message is its CPort, the type in its operation header and the rest. A call is one function
--     from its start to its end: `list_lock` is not held over the whole of `mods_nw_add_route` and
--     `mods_nw_register_filter`, and calls that overlap are not modelled.
--   * ModService: muc_svc.c, with the network of Nw. ModService/Routes has the pairs of routes, ModService/Requests
--     `muc_svc_handle_ap_request` with what it calls, where `none` stands for a read behind a request that is too
--     short; ModService/Attach `mods_dl_dev_attached` and `mods_dl_dev_detached` with the work for a hotplug
--     request, ModService/Recovery `muc_svc_recovery`, ModService/Messages the messages that wait for an answer, and
--     ModService/Modules the requests of the modules. What a module answers, the ticks of the clock and the
--     kernel's `time_after_eq`, whose documented behaviour `TimeLaw` states, are parameters.
--   * Operation: operation.c. An `Operation` has its messages' buffers as bytes, its result, its users
--     and references; `recv` is `gb_connection_recv` over the operations on the connection's list.
--     `Checked` says that a write goes beyond a buffer's end, and `size_t` has 64 bits. What the driver
--     does with a message that is handed to it (`Driver`: whether it reports the sending before it returns, and
--     what it returns), and the outcome of each allocation, are parameters.
--     Waiting, the protocols' handlers and the cancellation of operations are not modelled.
--   * Crc: crc.c, with numbers below 65536 for `uint16_t` and a list of bytes for the buffer.
--   * Spi: the reception in muc_spi.c, and in Spi/Sending `__muc_spi_message_send`, which takes the
--     exchange of packets as a parameter; Spi/Transfer is that exchange, `muc_spi_transfer`, with its tries, and a
--     parameter says what each of them meets. `Spi` has the fields of `struct
--     muc_spi_data` that it uses; the packet and the datagram are lists of bytes. The kernel's
--     `is_power_of_2` is a parameter whose documented behaviour `PowerLaw` states, and so is the
--     maximal speed of the bus.
--   * Uart: `mods_uart_send_internal` and `n_mods_uart_receive_buf2` of mods_uart.c with what they
--     call. The receive buffer is the list of the bytes that it holds, the kernel's `crc16` is a
--     parameter, and the outcomes of the allocation and of the tty's writes are arguments. The loops
--     have fuel: one round for each byte that arrives, and one more than the bytes in the buffer for
--     the segments, which is enough.
--   * Muc: muc_gpio.c. `Muc` has the fields of `struct muc_data` that change and a log of the calls
--     made. Each handler of `attach_wq` is one function, since they run one at a time; `Readings` are
--     the levels of the GPIOs as they are read. An interrupt while the power comes up is ignored by the
--     code, and any other one waits for the handler that runs. `muc_register_spi` and
--     `muc_register_i2c` are those of muc_core.c. `Port` is what the clients see.
--
-- Not modelled: log output, sysfs and debugfs, requests of GPIOs, pins, clocks and device tree properties, and
-- the registration of drivers, which only pass values to the kernel; the drivers of the devices behind the
-- protocols (camera, sensors, audio, light, battery and others), which are mostly tables and calls of kernel
-- subsystems; the other parts of muc_svc.c, and apba.c, ptp.c, loopback.c and the I2C transport.
-- Log output and waiting are left out of the functions that are modelled.
pub mod Prelude
pub mod Protocol
pub mod Connection
pub mod Manifest
pub mod Nw
pub mod Operation
pub mod Crc
pub mod Spi
pub mod Uart
pub mod Muc
pub mod Interface
pub mod Svc
pub mod ModService
