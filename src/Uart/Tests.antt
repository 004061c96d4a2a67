-- ===== src/Uart/Tests.antt =====
-- The theorems on `UartDevice` of src/devices.cpp at concrete states.
use verilator_axi_testbench.Common.{ℕ, ◌≤◌, ◌≡◌, ◌↔◌, List, [], ◌∷◌, length, ok, arith}
use verilator_axi_testbench.Axi.{Response}
use verilator_axi_testbench.Ring.Contents.{fresh-IsValid}
use verilator_axi_testbench.Uart.State.{
  UartDevice, BufferUartBackend, buffer_backend, make_uart, uart_reset, fifo_depth, capacity,
}
use verilator_axi_testbench.Uart.{uart_settle, uart_write, uart_read, uart_tick, poll_loop}
use verilator_axi_testbench.Uart.Fifo.{IsValidUart, Polls, poll_loop-Polls}
use verilator_axi_testbench.Uart.Interrupts.{Pending, uart_settle-irq}
use verilator_axi_testbench.Uart.Writes.{uart_write-IsValidUart}
use verilator_axi_testbench.Uart.Reads.{uart_read-IsValidUart}

-- A UART with two bytes waiting in its backend.
abbrev console : UartDevice BufferUartBackend
console = make_uart (record { input = 65 ∷ 66 ∷ []; output = [] })

console-IsValidUart : IsValidUart console
unfolding make_uart capacity
console-IsValidUart = record {
  fifo = fresh-IsValid fifo_depth 0 (omega arith);
  bounded = omega arith;
}

poll_loop-Polls_example :
    Polls console (poll_loop fifo_depth console) × IsValidUart (poll_loop fifo_depth console)
poll_loop-Polls_example = poll_loop-Polls console console-IsValidUart

uart_settle-irq_example :
    (((uart_settle console).irq ≡ 1) ↔ Pending console) × ((uart_settle console).irq ≤ 1)
uart_settle-irq_example = uart_settle-irq console

uart_read-IsValidUart_example :
    IsValidUart (uart_tick console)
    × ((response : Response) × (values : List ℕ) × (u' : UartDevice BufferUartBackend) × (uart_read
            console 0
            (0 ∷ [])
            (1 ∷ [])
          ≡ ok (response, values, u'))
        × (length values ≡ 1)
        × IsValidUart u')
uart_read-IsValidUart_example =
    uart_read-IsValidUart console 0 (0 ∷ []) (1 ∷ []) console-IsValidUart

-- Switching the FIFO on, with its trigger level at four bytes.
uart_write-IsValidUart_example :
    IsValidUart (uart_write console 2 (0x41 ∷ []) (1 ∷ [])).1 × IsValidUart (uart_reset console)
uart_write-IsValidUart_example =
    uart_write-IsValidUart console 2 (0x41 ∷ []) (1 ∷ []) console-IsValidUart
